-- ===== src/Packet/RoundTrip.antt =====
-- packet/packer.go: what `UnpackMessage` gives back, and that both ways of packing agree.
use due.Base.{
  List, ap, arith, drop, drop-add, drop-append_length, eqb, false, if_eqb, if◌then◌else◌, inl, inr,
  length, length-append, le→ltb, ltb, refl, subst, take, take-append_length, ℕ, ◌%◌, ◌++◌, ◌+◌, ◌-◌,
  ◌<◌, ◌^◌, ◌∙◌, ◌≡◌, ◌⊎◌,
}
use due.Base.Ints.{InRange, pattern_of, pattern_of-bound, pos, signed, signed-pattern_of, ℤ}
use due.Buffer.Order.{ByteOrder, get-put, length-put, put}
use due.Errors.{err, invalid_message, ok, ◌>>=◌}
use due.Packet.{Message, Packer, body_size, pack_message, signed_bytes}
use due.Packet.Unpack.{binary_read, read_header, read_signed, unpack_message}
use due.Packet.Frame.{
  Fits, Fits-packed, IsPacker, IsPacker-widths, IsWidth, absent, four, length-packed,
  length-signed_bytes, one, packed, two,
}
use due.Protocol.{data_bit}

pub binary_read-put :
    (o : ByteOrder) (k v : ℕ) (rest : List ℕ)
    → v < 256 ^ k
    → binary_read o k (put o k v ++ rest) ≡ ok (v, rest)
unfolding binary_read
binary_read-put o k v rest h =
    let l = length-put o k v in
    let room : ltb (length (put o k v ++ rest)) k ≡ false =
      le→ltb _ k (omega (arith, l, length-append (put o k v) rest)) in
    let front =
      subst (λ n. take n (put o k v ++ rest) ≡ put o k v) l (take-append_length (put o k v) rest) in
    let back =
      subst (λ n. drop n (put o k v ++ rest) ≡ rest) l (drop-append_length (put o k v) rest) in
    rw (room, front, back, get-put o k v h) refl

word_back :
    (o : ByteOrder) (k : ℕ) (z : ℤ) (rest : List ℕ)
    → 0 < 256 ^ k
    → InRange k z
    → ◌>>=◌ {B = ℤ × List ℕ}
        (binary_read o k (put o k (pattern_of k z) ++ rest))
        (λ (w, tail). ok (signed k w, tail))
      ≡ ok (z, rest)
word_back o k z rest l h =
    rw (binary_read-put o k (pattern_of k z) rest (pattern_of-bound k z l), signed-pattern_of k z h)
      refl

-- What a field of `n` bytes holds after the way through a frame.
abbrev pub carried : ℕ → ℤ → ℤ
carried n z = if eqb n 0 then pos 0 else z

read_signed-bytes :
    (o : ByteOrder) (n : ℕ) (z : ℤ) (rest : List ℕ)
    → IsWidth n
    → (n ≡ 0) ⊎ InRange n z
    → read_signed o n (signed_bytes o n z ++ rest) ≡ ok (carried n z, rest)
unfolding read_signed signed_bytes
read_signed-bytes o n z rest absent h = refl
read_signed-bytes o n z rest one (inl e) = absurd (omega (arith, e))
read_signed-bytes o n z rest two (inl e) = absurd (omega (arith, e))
read_signed-bytes o n z rest four (inl e) = absurd (omega (arith, e))
read_signed-bytes o n z rest one (inr h) = word_back o 1 z rest (omega arith) h
read_signed-bytes o n z rest two (inr h) = word_back o 2 z rest (omega arith) h
read_signed-bytes o n z rest four (inr h) = word_back o 4 z rest (omega arith) h

-- The size of a frame that was packed, and its header.
pub read_header-frame :
    (o : ByteOrder) (size header : ℕ) (rest : List ℕ)
    → size < 256 ^ 4
    → header < 256
    → size ≡ 1 + length rest
    → read_header o (put o 4 size ++ (put o 1 header ++ rest)) ≡ ok (header, rest)
unfolding read_header
read_header-frame o size header rest h k e =
    let l = length-put o 4 size in
    let l' = length-put o 1 header in
    let test : length (put o 4 size ++ (put o 1 header ++ rest)) - 4 ≡ size = omega (
      arith,
      l,
      l',
      e,
      length-append (put o 4 size) (put o 1 header ++ rest),
      length-append (put o 1 header) rest,
    ) in
    rw
      (
        binary_read-put o 4 size (put o 1 header ++ rest) h,
        if_eqb (length (put o 4 size ++ (put o 1 header ++ rest)) - 4) size
            (binary_read o 1 (put o 1 header ++ rest)) (err invalid_message) test,
      )
      (binary_read-put o 1 header rest k)

drop_front :
    (xs ys zs : List ℕ) (n : ℕ) → length xs + length ys ≡ n → drop n (xs ++ (ys ++ zs)) ≡ zs
drop_front xs ys zs n e =
    subst (λ k. drop k (xs ++ (ys ++ zs)) ≡ zs) e
      (drop-add (length xs) (length ys) (xs ++ (ys ++ zs))
        ∙ ap (drop (length ys)) (drop-append_length xs (ys ++ zs))
        ∙ drop-append_length ys zs)

-- What stands in front of the message is dropped.
drop-packed :
    (p : Packer) (m : Message)
    → IsPacker p
    → drop (4 + 1 + p.opts.route_bytes + p.opts.seq_bytes) (packed p m) ≡ m.buffer
unfolding packed
drop-packed p m h =
    let o = p.opts.byte_order in
    let (r, _, s) = IsPacker-widths p h in
    let rs = signed_bytes o p.opts.route_bytes m.route in
    let ss = signed_bytes o p.opts.seq_bytes m.seq in
    let n = put o 4 (body_size p m % 2 ^ 32) in
    let d = put o 1 data_bit in
    let ln = length-put o 4 (body_size p m % 2 ^ 32) in
    let ld = length-put o 1 data_bit in
    let lr = length-signed_bytes o p.opts.route_bytes m.route r in
    let ls = length-signed_bytes o p.opts.seq_bytes m.seq s in
    let front = drop_front n d (rs ++ (ss ++ m.buffer)) 5 (omega (arith, ln, ld)) in
    let back =
      drop_front rs ss m.buffer (p.opts.route_bytes + p.opts.seq_bytes) (omega (arith, lr, ls)) in
    let split : 4 + 1 + p.opts.route_bytes + p.opts.seq_bytes
        ≡ 5 + (p.opts.route_bytes + p.opts.seq_bytes) =
      omega arith in
    ap (λ k. drop k (packed p m)) split
    ∙ drop-add 5 (p.opts.route_bytes + p.opts.seq_bytes) (packed p m)
    ∙ ap (drop (p.opts.route_bytes + p.opts.seq_bytes)) front
    ∙ back

pub header_back :
    (p : Packer) (m : Message)
    → IsPacker p
    → body_size p m < 2 ^ 32
    → read_header p.opts.byte_order (packed p m)
      ≡ ok (
        0,
        signed_bytes p.opts.byte_order p.opts.route_bytes m.route
            ++ (signed_bytes p.opts.byte_order p.opts.seq_bytes m.seq ++ m.buffer),
      )
unfolding packed
header_back p m h l =
    let o = p.opts.byte_order in
    let (r, _, s) = IsPacker-widths p h in
    let rs = signed_bytes o p.opts.route_bytes m.route in
    let ss = signed_bytes o p.opts.seq_bytes m.seq in
    read_header-frame o (body_size p m % 2 ^ 32) 0 (rs ++ (ss ++ m.buffer)) (omega arith)
      (omega arith)
      (omega (
        arith,
        l,
        length-append rs (ss ++ m.buffer),
        length-append ss m.buffer,
        length-signed_bytes o p.opts.route_bytes m.route r,
        length-signed_bytes o p.opts.seq_bytes m.seq s,
      ))

unpack_packed :
    (p : Packer) (m : Message)
    → IsPacker p
    → Fits p m
    → body_size p m < 2 ^ 32
    → unpack_message p (packed p m) ≡ ok (record m { seq = carried p.opts.seq_bytes m.seq })
unfolding unpack_message
unpack_packed p m h f l =
    let o = p.opts.byte_order in
    let (r, k, s) = IsPacker-widths p h in
    let ss = signed_bytes o p.opts.seq_bytes m.seq ++ m.buffer in
    let room : ltb (length (packed p m)) (4 + 1 + p.opts.route_bytes + p.opts.seq_bytes) ≡ false =
      le→ltb _ _ (omega (arith, length-packed p m h)) in
    let route = read_signed-bytes o p.opts.route_bytes m.route ss r (inr f.route_fits) in
    let seq = read_signed-bytes o p.opts.seq_bytes m.seq m.buffer s f.seq_fits in
    let same : carried p.opts.route_bytes m.route ≡ m.route = ground (arith, k) in
    rw (room, header_back p m h l, route, seq, same, drop-packed p m h) refl

-- For a packer that `NewPacker` accepts and a message that fits it, whose size is a number of 32
-- bits, `PackMessage` succeeds and `UnpackMessage` gives the message back from the frame, with the
-- sequence number 0 if the packer sends none.
pub unpack-pack :
    (p : Packer) (m : Message)
    → IsPacker p
    → Fits p m
    → body_size p m < 2 ^ 32
    → (frame : List ℕ) × (pack_message p m ≡ ok frame)
      × (unpack_message p frame ≡ ok (record m { seq = carried p.opts.seq_bytes m.seq }))
unfolding unpack_message packed
unpack-pack p m h f l = (packed p m, Fits-packed p m h f, unpack_packed p m h f l)
