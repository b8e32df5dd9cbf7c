-- ===== src/Buffer/Writer.antt =====
-- core/buffer/writer.go: a growing byte writer. `mem` is the array behind the slice `buf`, up to its
-- capacity, and `len` is the slice's length; `none` is a panic of an index out of range.
-- A value is the number of its bits: a float's IEEE bits, a signed word's two's complement.
pub mod Appends
use Prim.Native.Nat.{min}
use due.Base.{
  Bool, List, Option, [], drop, false, if◌then◌else◌, leb, length, ltb, map, none, replicate, some,
  take, true, ℕ, ◌*◌, ◌++◌, ◌+◌, ◌-◌, ◌∷◌,
}
use due.Buffer.Order.{ByteOrder, put}

pub record Writer : Type 0 where
  pub mem : List ℕ
  pub len : ℕ
  pub off : ℕ

-- `NewWriter` of a slice, and `NewWriterWithCapacity`.
unfoldable pub new_writer : List ℕ → ℕ → Writer
new_writer mem len = record { mem = mem; len = len; off = 0 }

unfoldable pub new_writer_with_capacity : ℕ → Writer
new_writer_with_capacity cap = record { mem = replicate cap 0; len = cap; off = 0 }

abbrev pub bytes : Writer → List ℕ
bytes w = take w.off w.mem

-- The capacity that `growSlice` allocates.
pub next_capacity : ℕ → Writer → ℕ
next_capacity n w = if ltb (w.len + n) (2 * length w.mem) then 2 * length w.mem else w.len + n

pub grow_slice : ℕ → Writer → Writer
grow_slice n w =
    let c = next_capacity n w in
    record w { mem = take w.off w.mem ++ replicate (c - w.off) 0; len = c }

unfoldable pub grow : ℕ → Writer → Writer
grow n w = if ltb (w.off + n) (length w.mem) then w else grow_slice n w

-- The array with `bs` written at the offset, and the offset behind them.
pub splice : List ℕ → Writer → Writer
splice bs w = record w {
  mem = take w.off w.mem ++ (bs ++ drop (w.off + length bs) w.mem);
  off = w.off + length bs;
}

-- `order.PutUint16(w.buf[w.off:w.off+2], v)` and its kin: reslicing reaches up to the capacity.
pub put_word : ByteOrder → ℕ → ℕ → Writer → Option Writer
put_word o k v w = if leb (w.off + k) (length w.mem) then some (splice (put o k v) w) else none

pub put_words : ByteOrder → ℕ → List ℕ → Writer → Option Writer
put_words o k [] w = some w
put_words o k (v ∷ vs) w = elim (put_word o k v w) [ none ↦ none | some w' ↦ put_words o k vs w' ]

-- `w.buf[w.off] = v`: indexing reaches up to the length.
unfoldable pub put_byte : ℕ → Writer → Option Writer
put_byte v w = if ltb w.off w.len then some (splice (v ∷ []) w) else none

unfoldable pub put_bytes : List ℕ → Writer → Option Writer
put_bytes [] w = some w
put_bytes (v ∷ vs) w = elim (put_byte v w) [ none ↦ none | some w' ↦ put_bytes vs w' ]

unfoldable pub write_int8s : List ℕ → Writer → Option Writer
write_int8s vs w = put_bytes vs (grow (length vs) w)

unfoldable pub write_uint8s : List ℕ → Writer → Option Writer
write_uint8s vs w = put_bytes vs (grow (length vs) w)

abbrev pub bool_byte : Bool → ℕ
bool_byte true = 1
bool_byte false = 0

unfoldable pub write_bools : List Bool → Writer → Option Writer
write_bools vs w = put_bytes (map bool_byte vs) (grow (length vs) w)

unfoldable pub write_int16s : ByteOrder → List ℕ → Writer → Option Writer
write_int16s o vs w = put_words o 2 vs (grow (2 * length vs) w)

unfoldable pub write_uint16s : ByteOrder → List ℕ → Writer → Option Writer
write_uint16s o vs w = put_words o 2 vs (grow (2 * length vs) w)

unfoldable pub write_int32s : ByteOrder → List ℕ → Writer → Option Writer
write_int32s o vs w = put_words o 4 vs (grow (4 * length vs) w)

unfoldable pub write_uint32s : ByteOrder → List ℕ → Writer → Option Writer
write_uint32s o vs w = put_words o 4 vs (grow (4 * length vs) w)

unfoldable pub write_int64s : ByteOrder → List ℕ → Writer → Option Writer
write_int64s o vs w = put_words o 8 vs (grow (8 * length vs) w)

unfoldable pub write_uint64s : ByteOrder → List ℕ → Writer → Option Writer
write_uint64s o vs w = put_words o 8 vs (grow (8 * length vs) w)

-- `math.Float32bits` and `math.Float64bits` are the numbers as the model has them.
pub write_float32s : ByteOrder → List ℕ → Writer → Option Writer
write_float32s o vs w = put_words o 4 vs (grow (4 * length vs) w)

pub write_float64s : ByteOrder → List ℕ → Writer → Option Writer
write_float64s o vs w = put_words o 8 vs (grow (8 * length vs) w)

pub write_runes : ByteOrder → List ℕ → Writer → Option Writer
unfolding write_int32s
write_runes o vs w = write_int32s o vs w

-- `copy(w.buf[w.off:], values)` takes what the slice has room for; the offset moves on by all.
pub write_bytes : List ℕ → Writer → Option Writer
write_bytes vs w =
    let g = grow (length vs) w in
    let n = min (g.len - g.off) (length vs) in
    if leb g.off g.len
    then some (record g {
      mem = take g.off g.mem ++ (take n vs ++ drop (g.off + n) g.mem);
      off = g.off + length vs;
    })
    else none

unfoldable pub write_string : List ℕ → Writer → Option Writer
unfolding write_bytes
write_string str w = write_bytes str w

-- `Write`, with the number of bytes that it took.
pub write : List ℕ → Writer → Option (ℕ × Writer)
write p w =
    let g = grow (length p) w in
    let n = min (g.len - g.off) (length p) in
    if leb g.off g.len
    then some (
      n,
      record g { mem = take g.off g.mem ++ (take n p ++ drop (g.off + n) g.mem); off = g.off + n },
    )
    else none

-- `Release` keeps the array for the pool.
pub release : Writer → Writer
release w = record w { off = 0 }
