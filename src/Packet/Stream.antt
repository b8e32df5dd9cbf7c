-- ===== src/Packet/Stream.antt =====
-- packet/packer.go: frames one after the other on a connection.
use due.Base.{
  Bool-cases, List, Option, [], ap, append_assoc, arith, drop, drop-append_length, eqb, false,
  if◌then◌else◌, inl, inr, leb, length, length-append, length-drop, le→leb, ltb, ltb→lt, none, refl,
  some, subst, suc, sym, take, take-append_length, zero, ℕ, ◌%◌, ◌++◌, ◌+◌, ◌-◌, ◌<◌, ◌^◌, ◌∙◌, ◌∷◌,
  ◌≡◌, ◌≤◌,
}
use due.Buffer.Order.{get, get-put, length-put, put}
use due.Errors.{Error, Result, eof, err, ok, unexpected_eof}
use due.Protocol.{data_bit}
use due.Packet.{Message, Packer, body_size, default_size_bytes, pack_message, signed_bytes}
use due.Packet.Frame.{Fits, Fits-packed, IsPacker, length-packed, packed}

-- `io.ReadFull` from what a connection will still bring before its end.
unfoldable pub read_full : ℕ → List ℕ → Result (List ℕ × List ℕ)
read_full n bs =
    if leb n (length bs)
    then ok (take n bs, drop n bs)
    else if eqb (length bs) 0
    then err eof
    else err unexpected_eof

-- The buffer for the whole frame: `make([]byte, int(defaultSizeBytes+size))` with a sum in uint32,
-- of which the first four bytes are written at once. `none` is a panic.
unfoldable pub room_for : ℕ → Option ℕ
room_for size =
    let n = (default_size_bytes + size) % 2 ^ 32 in
    if ltb n default_size_bytes then none else some (n - default_size_bytes)

-- `ReadMessage`, and what is left on the connection; no bytes are `nil`.
unfoldable pub read_message : Packer → List ℕ → Option (Result (List ℕ) × List ℕ)
read_message p bs = elim (read_full default_size_bytes bs) [
  | err e ↦ some (err e, [])
  | ok (buf, rest) ↦
      if eqb (get p.opts.byte_order buf) 0
      then some (ok [], rest)
      else elim (room_for (get p.opts.byte_order buf)) [
        | none ↦ none
        | some n ↦ elim (read_full n rest) [
          | err e ↦ some (err e, [])
          | ok (body, rest') ↦ some (ok (buf ++ body), rest')
        ]
      ]
]

read_full-append : (xs ys : List ℕ) (n : ℕ) → length xs ≡ n → read_full n (xs ++ ys) ≡ ok (xs, ys)
unfolding read_full
read_full-append xs ys n e =
    let front = subst (λ k. take k (xs ++ ys) ≡ xs) e (take-append_length xs ys) in
    let back = subst (λ k. drop k (xs ++ ys) ≡ ys) e (drop-append_length xs ys) in
    rw (le→leb n (length (xs ++ ys)) (omega (arith, e, length-append xs ys)), front, back) refl

read_full-short : (bs : List ℕ) (n : ℕ) → length bs < n → (e : Error) × (read_full n bs ≡ err e)
unfolding read_full
read_full-short bs n h = elim (Bool-cases (eqb (length bs) 0)) [
  | inl e ↦ (eof, ground arith)
  | inr e ↦ (unexpected_eof, ground arith)
]

room_for_size : (size : ℕ) → 4 + size < 2 ^ 32 → room_for size ≡ some size
unfolding room_for
room_for_size size h = ground arith

read_sized :
    (p : Packer) (size : ℕ) (buf body rest : List ℕ)
    → length buf ≡ 4
    → get p.opts.byte_order buf ≡ size
    → 0 < size
    → 4 + size < 2 ^ 32
    → length body ≡ size
    → read_message p (buf ++ (body ++ rest)) ≡ some (ok (buf ++ body), rest)
unfolding read_message
read_sized p size buf body rest l g h k e =
    let test : eqb size 0 ≡ false = ground arith in
    rw
      (
        read_full-append buf (body ++ rest) 4 l,
        g,
        test,
        room_for_size size k,
        read_full-append body rest size e,
        read_message,
      )
      refl

read_cut :
    (p : Packer) (size : ℕ) (buf part : List ℕ)
    → length buf ≡ 4
    → get p.opts.byte_order buf ≡ size
    → 4 + size < 2 ^ 32
    → length part < size
    → (e : Error) × (read_message p (buf ++ part) ≡ some (err e, []))
unfolding read_message
read_cut p size buf part l g k h =
    let test : eqb size 0 ≡ false = ground arith in
    let (e, short) = read_full-short part size h in
    (e, rw (read_full-append buf part 4 l, g, test, room_for_size size k, short, read_message) refl)

take-append_le {ℓ} :
    {A : Type ℓ} (n : ℕ) (xs ys : List A) → n ≤ length xs → take n (xs ++ ys) ≡ take n xs
take-append_le zero xs ys h = refl
take-append_le (suc n) [] ys h = absurd (omega arith)
take-append_le (suc n) (x ∷ xs) ys h = ap (◌∷◌ x) (take-append_le n xs ys (omega arith))

take-drop {ℓ} : {A : Type ℓ} (n : ℕ) (xs : List A) → take n xs ++ drop n xs ≡ xs
take-drop zero xs = refl
take-drop (suc n) [] = refl
take-drop (suc n) (x ∷ xs) = ap (◌∷◌ x) (take-drop n xs)

ok-injective {ℓ} : {A : Type ℓ} {a b : A} → (ok a ≡ ok b) → a ≡ b
ok-injective h = cc

packed_split :
    (p : Packer) (m : Message)
    → IsPacker p
    → body_size p m < 2 ^ 32
    → (body : List ℕ) × (packed p m ≡ put p.opts.byte_order 4 (body_size p m) ++ body)
      × (length body ≡ body_size p m)
unfolding packed
packed_split p m h l =
    let o = p.opts.byte_order in
    let n = body_size p m in
    let e : n % 2 ^ 32 ≡ n = omega arith in
    let body =
      put o 1 data_bit
      ++ (signed_bytes o p.opts.route_bytes m.route
          ++ (signed_bytes o p.opts.seq_bytes m.seq ++ m.buffer)) in
    let d = ap (λ i. put o 4 i ++ body) e in
    let k = length-packed p m h in
    (body, d, omega (arith, k, ap length d, length-append (put o 4 n) body, length-put o 4 n))

read_short :
    (p : Packer) (part : List ℕ)
    → length part < 4
    → (e : Error) × (read_message p part ≡ some (err e, []))
unfolding read_message
read_short p part h = let (e, s) = read_full-short part 4 h in (e, rw (s, read_message) refl)

-- A frame that breaks off behind its first four bytes.
read_long :
    (p : Packer) (n : ℕ) (buf body part missing : List ℕ)
    → length buf ≡ 4
    → get p.opts.byte_order buf ≡ n
    → 4 + n < 2 ^ 32
    → length body ≡ n
    → part ++ missing ≡ buf ++ body
    → 0 < length missing
    → 4 ≤ length part
    → (e : Error) × (read_message p part ≡ some (err e, []))
read_long p n buf body part missing lb g l lc s k room =
    let front : take 4 part ≡ buf =
      sym (take-append_le 4 part missing room)
      ∙ ap (take 4) s
      ∙ subst (λ i. take i (buf ++ body) ≡ buf) lb (take-append_length buf body) in
    let short : length (drop 4 part) < n = omega (
      arith,
      length-drop 4 part,
      lb,
      lc,
      k,
      room,
      ap length s,
      length-append part missing,
      length-append buf body,
    ) in
    let (e, r) = read_cut p n buf (drop 4 part) lb g l short in
    (e, ap (read_message p) (sym (ap (λ xs. xs ++ drop 4 part) (sym front) ∙ take-drop 4 part)) ∙ r)

-- For a packer that `NewPacker` accepts, a message that fits it and whose frame has less than 2^32
-- bytes: from a connection that brings the frame and then anything, `ReadMessage` takes the frame
-- and leaves what follows it; from a connection that ends within the frame it answers an error and
-- does not panic.
pub read_message-Frame :
    (p : Packer) (m : Message) (frame part missing rest : List ℕ)
    → IsPacker p
    → Fits p m
    → 4 + body_size p m < 2 ^ 32
    → pack_message p m ≡ ok frame
    → part ++ missing ≡ frame
    → 0 < length missing
    → (read_message p (frame ++ rest) ≡ some (ok frame, rest))
      × (e : Error) × (read_message p part ≡ some (err e, []))
read_message-Frame p m frame part missing rest h f l e split k =
    let o = p.opts.byte_order in
    let n = body_size p m in
    let (body, d, lb) = packed_split p m h (omega (arith, l)) in
    let g = get-put o 4 n (omega (arith, l)) in
    let same : packed p m ≡ frame = ok-injective (sym (Fits-packed p m h f) ∙ e) in
    let whole = read_sized p n (put o 4 n) body rest (length-put o 4 n) g (omega arith) l lb in
    let back = sym d ∙ same in
    let cut_lem : (e : Error) × (read_message p part ≡ some (err e, [])) =
      elim (Bool-cases (ltb (length part) 4)) [
        | inl s ↦ read_short p part (ltb→lt _ _ s)
        | inr s ↦
            read_long p n (put o 4 n) body part missing (length-put o 4 n) g l lb (split ∙ sym back)
              k (ground arith)
      ] in
    (
      subst (λ xs. read_message p (xs ++ rest) ≡ some (ok xs, rest)) back
          (ap (read_message p) (append_assoc (put o 4 n) body rest) ∙ whole),
      cut_lem.0,
      cut_lem.1,
    )
