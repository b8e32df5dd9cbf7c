-- ===== src/Packet/Outcome.antt =====
-- packet/packer.go: which error packing answers, and else where each field stands in the frame.
use due.Base.{
  Bool, Bool-cases, List, ap, arith, drop, drop-add, drop-append_length, false, inl, inr, length,
  ltb, refl, subst, take, take-append_length, true, ℕ, ◌%◌, ◌&&◌, ◌++◌, ◌+◌, ◌<◌, ◌^◌, ◌∙◌, ◌≡◌,
  ◌⊎◌,
}
use due.Base.Ints.{InRange, pattern_of, pattern_of-bound, signed, signed-pattern_of, ℤ}
use due.Buffer.Order.{ByteOrder, big, get, get-put, length-put, little, put}
use due.Errors.{err, message_too_large, ok, route_overflow, seq_overflow}
use due.Packet.{
  Message, Packer, body_size, check_message, is_longer, overflows, pack_message, signed_bytes,
}
use due.Packet.Frame.{
  Fits, Fits-packed, IsPacker, IsPacker-widths, IsWidth, SeqFits, Within, absent, four,
  length-packed, length-signed_bytes, one, packed, tests_lem, two,
}
use due.Packet.RoundTrip.{carried}
use due.Protocol.{data_bit}

-- The frame, read by the offsets of its fields.
pub record IsLaidOut (p : Packer) (m : Message) (frame : List ℕ) : Type 0 where
  pub whole : length frame ≡ 4 + (1 + p.opts.route_bytes + p.opts.seq_bytes + length m.buffer)
  pub size :
      get p.opts.byte_order (take 4 frame)
      ≡ (1 + p.opts.route_bytes + p.opts.seq_bytes + length m.buffer) % 2 ^ 32
  pub header : get p.opts.byte_order (take 1 (drop 4 frame)) ≡ 0
  pub route :
      signed p.opts.route_bytes (get p.opts.byte_order (take p.opts.route_bytes (drop 5 frame)))
      ≡ m.route
  pub seq :
      signed p.opts.seq_bytes
        (get p.opts.byte_order (take p.opts.seq_bytes (drop (5 + p.opts.route_bytes) frame)))
      ≡ carried p.opts.seq_bytes m.seq
  pub body : drop (5 + p.opts.route_bytes + p.opts.seq_bytes) frame ≡ m.buffer

-- Where a list that was put together is taken apart.
parted :
    (n : ℕ) (xs ys : List ℕ) → length xs ≡ n → (take n (xs ++ ys) ≡ xs) × (drop n (xs ++ ys) ≡ ys)
parted n xs ys e = (
  subst (λ k. take k (xs ++ ys) ≡ xs) e (take-append_length xs ys),
  subst (λ k. drop k (xs ++ ys) ≡ ys) e (drop-append_length xs ys),
)

further_on :
    (a b : ℕ) (xs ys zs : List ℕ) → drop a xs ≡ ys ++ zs → length ys ≡ b → drop (a + b) xs ≡ zs
further_on a b xs ys zs h e = drop-add a b xs ∙ ap (drop b) h ∙ (parted b ys zs e).1

word_value :
    (o : ByteOrder) (k : ℕ) (z : ℤ)
    → 0 < 256 ^ k
    → InRange k z
    → signed k (get o (put o k (pattern_of k z))) ≡ z
word_value o k z l h =
    ap (signed k) (get-put o k (pattern_of k z) (pattern_of-bound k z l)) ∙ signed-pattern_of k z h

-- The value of a field that was written.
field_value :
    (o : ByteOrder) (n : ℕ) (z : ℤ)
    → IsWidth n
    → (n ≡ 0) ⊎ InRange n z
    → signed n (get o (signed_bytes o n z)) ≡ carried n z
unfolding signed_bytes get signed
field_value big n z absent h = refl
field_value little n z absent h = refl
field_value o n z one (inl e) = absurd (omega (arith, e))
field_value o n z two (inl e) = absurd (omega (arith, e))
field_value o n z four (inl e) = absurd (omega (arith, e))
field_value o n z one (inr h) = word_value o 1 z (omega arith) h
field_value o n z two (inr h) = word_value o 2 z (omega arith) h
field_value o n z four (inr h) = word_value o 4 z (omega arith) h

packed-IsLaidOut : (p : Packer) (m : Message) → IsPacker p → Fits p m → IsLaidOut p m (packed p m)
unfolding packed
packed-IsLaidOut p m h f =
    let o = p.opts.byte_order in
    let n = p.opts.route_bytes in
    let k = p.opts.seq_bytes in
    let (r, positive, s) = IsPacker-widths p h in
    let rs = signed_bytes o n m.route in
    let ss = signed_bytes o k m.seq in
    let size = put o 4 (body_size p m % 2 ^ 32) in
    let head = put o 1 data_bit in
    let lr = length-signed_bytes o n m.route r in
    let ls = length-signed_bytes o k m.seq s in
    let frame = packed p m in
    let (front, at4) =
      parted 4 size (head ++ (rs ++ (ss ++ m.buffer))) (length-put o 4 (body_size p m % 2 ^ 32)) in
    let at5 = further_on 4 1 frame head (rs ++ (ss ++ m.buffer)) at4 (length-put o 1 data_bit) in
    let behind = further_on 5 n frame rs (ss ++ m.buffer) at5 lr in
    let same : carried n m.route ≡ m.route = ground (arith, positive) in
    record {
      whole = length-packed p m h;
      size = ap (get o) front ∙ get-put o 4 (body_size p m % 2 ^ 32) (omega arith);
      header =
          ap (λ xs. get o (take 1 xs)) at4
          ∙ ap (get o) (parted 1 head (rs ++ (ss ++ m.buffer)) (length-put o 1 data_bit)).0
          ∙ get-put o 1 data_bit (omega arith);
      route =
          ap (λ xs. signed n (get o (take n xs))) at5
          ∙ ap (λ xs. signed n (get o xs)) (parted n rs (ss ++ m.buffer) lr).0
          ∙ field_value o n m.route r (inr f.route_fits)
          ∙ same;
      seq =
          ap (λ xs. signed k (get o (take k xs))) behind
          ∙ ap (λ xs. signed k (get o xs)) (parted k ss m.buffer ls).0
          ∙ field_value o k m.seq s f.seq_fits;
      body = further_on (5 + n) k frame ss m.buffer behind ls;
    }

clash : {b : Bool} → b ≡ true → ¬ (b ≡ false)
clash h k = cc

-- What packing may answer, with the condition of each answer.
unfoldable pub Outcome : Packer → Message → Type 0
Outcome p m =
    (¬ InRange p.opts.route_bytes m.route × (pack_message p m ≡ err route_overflow))
    ⊎ ((InRange p.opts.route_bytes m.route × ¬ SeqFits p m × (pack_message p m ≡ err seq_overflow))
        ⊎ ((InRange p.opts.route_bytes m.route
              × SeqFits p m
              × ¬ Within m.buffer p.opts.buffer_bytes
              × (pack_message p m ≡ err message_too_large))
            ⊎ (Fits p m × (frame : List ℕ) × (pack_message p m ≡ ok frame) × IsLaidOut p m frame)))

-- For a packer that `NewPacker` accepts, `PackMessage` answers one of these: the route error, if
-- the route is no signed number of the route's bytes; else the sequence error, if sequence numbers
-- are sent and this one is no signed number of their bytes; else the size error, if the body is
-- longer than allowed; else a frame whose first four bytes are the size of what follows, modulo
-- 2^32, whose next byte is 0, and behind which the bytes of the route hold the route as a signed
-- number, the bytes of the sequence number, if there are any, the sequence number, and the rest is
-- the body.
pub pack_message-Outcome : (p : Packer) (m : Message) → IsPacker p → Outcome p m
unfolding Outcome pack_message check_message
pack_message-Outcome p m h =
    let (a, b, c) = tests_lem p m h in
    elim (Bool-cases (overflows p.opts.route_bytes m.route)) [
      | inl e ↦ inl (λ x. clash e (a.1 x), rw (e, pack_message, check_message) refl)
      | inr e ↦ elim (Bool-cases (ltb 0 p.opts.seq_bytes && overflows p.opts.seq_bytes m.seq)) [
        | inl e' ↦
            inr (inl (a.0 e, λ x. clash e' (b.1 x), rw (e, e', pack_message, check_message) refl))
        | inr e' ↦ elim (Bool-cases (is_longer m.buffer p.opts.buffer_bytes)) [
          | inl e'' ↦ inr (
              inr (
                inl (
                  a.0 e,
                  b.0 e',
                  λ x. clash e'' (c.1 x),
                  rw (e, e', e'', pack_message, check_message) refl,
                )))
          | inr e'' ↦
              let f : Fits p m = record {
                route_fits = a.0 e;
                seq_fits = b.0 e';
                buffer_fits = c.0 e'';
              } in
              inr (inr (inr (f, packed p m, Fits-packed p m h f, packed-IsLaidOut p m h f)))
        ]
      ]
    ]
