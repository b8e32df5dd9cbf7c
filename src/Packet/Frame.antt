-- ===== src/Packet/Frame.antt =====
-- packet/packer.go: when packing succeeds, and which error it answers otherwise.
use due.Base.{
  Bool-cases, List, arith, false, inl, inr, length, length-append, ltb, ltb→lt, refl, some, subst,
  sym, true, ℕ, ◌%◌, ◌&&◌, ◌++◌, ◌+◌, ◌<◌, ◌^◌, ◌↔◌, ◌≡◌, ◌≤◌, ◌⊎◌,
}
use due.Base.Ints.{InRange, negsuc, pos, ℤ}
use due.Buffer.Order.{ByteOrder, length-put, put}
use due.Packet.{
  Message, Packer, body_size, check_message, is_longer, is_seq_bytes, make_heartbeat, new_packer,
  overflows, pack_message, signed_bytes,
}
use due.Protocol.{data_bit}
use due.Errors.{ok}

-- The packer is one that `NewPacker` made.
abbrev pub IsPacker : Packer → Type 0
IsPacker p = new_packer p.opts ≡ some p

pub data IsWidth : ℕ → Type 0 where
  absent : IsWidth 0
  one : IsWidth 1
  two : IsWidth 2
  four : IsWidth 4

width_cases : (n : ℕ) → is_seq_bytes n ≡ true → (n ≡ 0) ⊎ ((n ≡ 1) ⊎ ((n ≡ 2) ⊎ (n ≡ 4)))
width_cases n h = ground arith

width : (n : ℕ) → is_seq_bytes n ≡ true → IsWidth n
width n h = elim (width_cases n h) [
  | inl e ↦ subst IsWidth (sym e) absent
  | inr (inl e) ↦ subst IsWidth (sym e) one
  | inr (inr (inl e)) ↦ subst IsWidth (sym e) two
  | inr (inr (inr e)) ↦ subst IsWidth (sym e) four
]

pub IsPacker-widths :
    (p : Packer)
    → IsPacker p
    → IsWidth p.opts.route_bytes × (0 < p.opts.route_bytes) × IsWidth p.opts.seq_bytes
unfolding new_packer
IsPacker-widths p h = (width _ (ground arith), ground arith, width _ (ground arith))

pub IsPacker-heartbeat : (p : Packer) → IsPacker p → p.heartbeat ≡ make_heartbeat p.opts.byte_order
unfolding new_packer
IsPacker-heartbeat p h = ground arith

pub length-signed_bytes :
    (o : ByteOrder) (n : ℕ) (z : ℤ) → IsWidth n → length (signed_bytes o n z) ≡ n
unfolding signed_bytes
length-signed_bytes o n z absent = refl
length-signed_bytes o n z one = length-put o 1 _
length-signed_bytes o n z two = length-put o 2 _
length-signed_bytes o n z four = length-put o 4 _

overflows-InRange : (n : ℕ) (z : ℤ) → IsWidth n → 0 < n → (overflows n z ≡ false) ↔ InRange n z
unfolding overflows
overflows-InRange n z absent h = absurd (omega (arith, h))
overflows-InRange n (pos m) one h = ground arith
overflows-InRange n (negsuc m) one h = ground arith
overflows-InRange n (pos m) two h = ground arith
overflows-InRange n (negsuc m) two h = ground arith
overflows-InRange n (pos m) four h = ground arith
overflows-InRange n (negsuc m) four h = ground arith

-- The sequence number is not sent, or can be.
abbrev pub SeqFits : Packer → Message → Type 0
SeqFits p m = (p.opts.seq_bytes ≡ 0) ⊎ InRange p.opts.seq_bytes m.seq

abbrev pub Within : List ℕ → ℤ → Type 0
Within bs (pos n) = length bs ≤ n
Within bs (negsuc n) = ⊥

pub record Fits (p : Packer) (m : Message) : Type 0 where
  pub route_fits : InRange p.opts.route_bytes m.route
  pub seq_fits : SeqFits p m
  pub buffer_fits : Within m.buffer p.opts.buffer_bytes

unfoldable pub packed : Packer → Message → List ℕ
packed p m =
    let o = p.opts.byte_order in
    put o 4 (body_size p m % 2 ^ 32)
    ++ (put o 1 data_bit
        ++ (signed_bytes o p.opts.route_bytes m.route
            ++ (signed_bytes o p.opts.seq_bytes m.seq ++ m.buffer)))

pub length-packed :
    (p : Packer) (m : Message) → IsPacker p → length (packed p m) ≡ 4 + body_size p m
unfolding packed
length-packed p m h =
    let o = p.opts.byte_order in
    let (r, _, s) = IsPacker-widths p h in
    let rs = signed_bytes o p.opts.route_bytes m.route in
    let ss = signed_bytes o p.opts.seq_bytes m.seq in
    let n = body_size p m % 2 ^ 32 in
    omega (
      arith,
      length-append (put o 4 n) (put o 1 data_bit ++ (rs ++ (ss ++ m.buffer))),
      length-append (put o 1 data_bit) (rs ++ (ss ++ m.buffer)),
      length-append rs (ss ++ m.buffer),
      length-append ss m.buffer,
      length-put o 4 n,
      length-put o 1 data_bit,
      length-signed_bytes o p.opts.route_bytes m.route r,
      length-signed_bytes o p.opts.seq_bytes m.seq s,
    )

seq_test :
    (n : ℕ) (z : ℤ) → IsWidth n → (ltb 0 n && overflows n z ≡ false) ↔ ((n ≡ 0) ⊎ InRange n z)
seq_test n z w = elim (Bool-cases (ltb 0 n)) [
  | inl e ↦ ground (arith, overflows-InRange n z w (ltb→lt 0 n e))
  | inr e ↦ ground arith
]

is_longer-Within : (bs : List ℕ) (z : ℤ) → (is_longer bs z ≡ false) ↔ Within bs z
unfolding is_longer
is_longer-Within bs (pos n) = ground arith
is_longer-Within bs (negsuc n) = ground arith

-- Whether each of the three tests passes.
pub tests_lem :
    (p : Packer) (m : Message)
    → IsPacker p
    → ((overflows p.opts.route_bytes m.route ≡ false) ↔ InRange p.opts.route_bytes m.route)
      × ((ltb 0 p.opts.seq_bytes && overflows p.opts.seq_bytes m.seq ≡ false) ↔ SeqFits p m)
      × ((is_longer m.buffer p.opts.buffer_bytes ≡ false) ↔ Within m.buffer p.opts.buffer_bytes)
tests_lem p m h =
    let (r, l, s) = IsPacker-widths p h in
    (
      overflows-InRange p.opts.route_bytes m.route r l,
      seq_test p.opts.seq_bytes m.seq s,
      is_longer-Within m.buffer p.opts.buffer_bytes,
    )

pub Fits-packed :
    (p : Packer) (m : Message) → IsPacker p → Fits p m → pack_message p m ≡ ok (packed p m)
unfolding pack_message check_message packed
Fits-packed p m h f =
    let (a, b, c) = tests_lem p m h in
    rw (a.1 f.route_fits, b.1 f.seq_fits, c.1 f.buffer_fits, pack_message, check_message) refl
