-- ===== src/Buffer/Reader.antt =====
-- core/buffer/reader.go: a reader over a byte slice. A count is a number from 0 on; a value is the
-- number of its bits: a float's IEEE bits, a signed word's two's complement.
pub mod Reads
use due.Base.{
  Bool, List, [], drop, eqb, if◌then◌else◌, leb, length, ltb, map, suc, take, zero, ℕ, ◌*◌, ◌+◌,
  ◌-◌, ◌∷◌,
}
use due.Buffer.Order.{ByteOrder, big, get}
use due.Errors.{Result, err, negative_position, ok, unexpected_eof}

pub record Reader : Type 0 where
  pub buf : List ℕ
  pub off : ℕ

abbrev pub new_reader : List ℕ → Reader
new_reader buf = record { buf = buf; off = 0 }

pub reset : Reader → Reader
reset r = record r { off = 0 }

-- What an operation returns, with the reader that it leaves behind.
abbrev pub Read {ℓ} : Type ℓ → Type ℓ
Read A = Reader → Result A × Reader

-- `return v, nil` and `return zero, err` after a call that failed.
abbrev pub and_then {ℓ κ} :
    {A : Type ℓ} {B : Type κ}
    → Result A × Reader
    → (A → Reader → Result B × Reader)
    → Result B × Reader
and_then (ok a, r) f = f a r
and_then (err e, r) f = (err e, r)

unfoldable pub slices : ℕ → ℕ → Read (List ℕ)
slices b n r =
    if ltb (length r.buf) (r.off + b * n)
    then (err unexpected_eof, r)
    else (ok (take (b * n) (drop r.off r.buf)), record r { off = r.off + b * n })

pub slice : ℕ → Read (List ℕ)
slice b r = slices b 1 r

-- `order.Uint16(buf)` and its kin, by the number of bytes.
pub read_word : ByteOrder → ℕ → Read ℕ
unfolding slice
read_word o k r = and_then (slice k r) (λ buf r'. (ok (get o buf), r'))

-- The values of a loop `for i := 0; i < len(buf); i += k` over `n` words.
abbrev pub split_words : ByteOrder → ℕ → ℕ → List ℕ → List ℕ
split_words o k zero buf = []
split_words o k (suc n) buf = get o (take k buf) ∷ split_words o k n (drop k buf)

pub read_words : ByteOrder → ℕ → ℕ → Read (List ℕ)
read_words o k n r = and_then (slices k n r) (λ buf r'. (ok (split_words o k n buf), r'))

-- `if n <= 0 { return nil, nil }`.
pub read_some : ByteOrder → ℕ → ℕ → Read (List ℕ)
unfolding read_words
read_some o k n r = if leb n 0 then (ok [], r) else read_words o k n r

unfoldable pub read_bool : Read Bool
unfolding slice
read_bool r = and_then (slice 1 r) (λ buf r'. (ok (eqb (get big buf) 1), r'))

pub read_bools : ℕ → Read (List Bool)
read_bools n r =
    if leb n 0
    then (ok [], r)
    else and_then (slices 1 n r) (λ buf r'. (ok (map (λ b. eqb b 1) buf), r'))

unfoldable pub read_uint8 : Read ℕ
unfolding read_word
read_uint8 r = read_word big 1 r

pub read_uint8s : ℕ → Read (List ℕ)
read_uint8s n r = if leb n 0 then (ok [], r) else and_then (slices 1 n r) (λ buf r'. (ok buf, r'))

unfoldable pub read_uint16 : ByteOrder → Read ℕ
unfolding read_word
read_uint16 o r = read_word o 2 r

unfoldable pub read_uint16s : ByteOrder → ℕ → Read (List ℕ)
unfolding read_some
read_uint16s o n r = read_some o 2 n r

pub read_uint32 : ByteOrder → Read ℕ
unfolding read_word
read_uint32 o r = read_word o 4 r

-- `ReadUint32s` does not test `n`.
unfoldable pub read_uint32s : ByteOrder → ℕ → Read (List ℕ)
unfolding read_words
read_uint32s o n r = read_words o 4 n r

unfoldable pub read_uint64 : ByteOrder → Read ℕ
unfolding read_word
read_uint64 o r = read_word o 8 r

unfoldable pub read_uint64s : ByteOrder → ℕ → Read (List ℕ)
unfolding read_some
read_uint64s o n r = read_some o 8 n r

pub read_float32s : ByteOrder → ℕ → Read (List ℕ)
unfolding read_some
read_float32s o n r = read_some o 4 n r

-- `int16(order.Uint16(buf))` and its kin keep the bits.
pub read_int8 : Read ℕ
unfolding read_uint8
read_int8 r = read_uint8 r

pub read_int8s : ℕ → Read (List ℕ)
unfolding read_uint8s
read_int8s n r = read_uint8s n r

pub read_int16 : ByteOrder → Read ℕ
unfolding read_uint16
read_int16 o r = read_uint16 o r

pub read_int16s : ByteOrder → ℕ → Read (List ℕ)
unfolding read_uint16s
read_int16s o n r = read_uint16s o n r

pub read_int32 : ByteOrder → Read ℕ
unfolding read_uint32
read_int32 o r = read_uint32 o r

pub read_int32s : ByteOrder → ℕ → Read (List ℕ)
unfolding read_uint32s
read_int32s o n r = read_uint32s o n r

unfoldable pub read_int64 : ByteOrder → Read ℕ
unfolding read_uint64
read_int64 o r = read_uint64 o r

unfoldable pub read_int64s : ByteOrder → ℕ → Read (List ℕ)
unfolding read_uint64s
read_int64s o n r = read_uint64s o n r

pub read_float32 : ByteOrder → Read ℕ
unfolding read_uint32
read_float32 o r = read_uint32 o r

pub read_float64 : ByteOrder → Read ℕ
unfolding read_uint64
read_float64 o r = read_uint64 o r

pub read_float64s : ByteOrder → ℕ → Read (List ℕ)
unfolding read_uint64s
read_float64s o n r = read_uint64s o n r

pub read_rune : ByteOrder → Read ℕ
unfolding read_int32
read_rune o r = read_int32 o r

pub read_runes : ByteOrder → ℕ → Read (List ℕ)
unfolding read_int32s
read_runes o n r = read_int32s o n r

pub read_byte : Read ℕ
unfolding read_uint8
read_byte r = read_uint8 r

pub read_bytes : ℕ → Read (List ℕ)
read_bytes n r = if leb n 0 then (ok [], r) else slices 1 n r

pub read_string : ℕ → Read (List ℕ)
unfolding slice
read_string n r = and_then (slice n r) (λ buf r'. (ok buf, r'))

pub data Whence : Type 0 where
  seek_start seek_current seek_end : Whence

pub data Offset : Type 0 where
  forward back : ℕ → Offset

abbrev pub base : Whence → Reader → ℕ
base seek_start r = 0
base seek_current r = r.off
base seek_end r = length r.buf

-- `Seek`; its whence is one of the three.
unfoldable pub seek : Offset → Whence → Read ℕ
seek (forward n) whence r = (ok (base whence r + n), record r { off = base whence r + n })
seek (back n) whence r =
    if ltb (base whence r) n
    then (err negative_position, r)
    else (ok (base whence r - n), record r { off = base whence r - n })
