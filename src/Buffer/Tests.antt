-- ===== src/Buffer/Tests.antt =====
-- Runs of core/buffer.
use due.Base.{List, [], arith, none, refl, true, ℕ, ◌∷◌, ◌≡◌}
use due.Buffer.Order.{big}
use due.Buffer.Writer.{
  Writer, grow, new_writer, new_writer_with_capacity, put_byte, put_bytes, write_bools, write_bytes,
  write_string, write_uint16s, write_uint32s, write_uint64s, write_uint8s,
}
use due.Buffer.Codec.{ReadsBack, write-read}
use due.Buffer.Reader.{
  read_bools, read_bytes, read_string, read_uint16s, read_uint32s, read_uint64s, read_uint8s,
}
use due.Buffer.Writer.Appends.{IsReady}

abbrev writer : Writer
writer = new_writer_with_capacity 4

writer-IsReady : IsReady writer
unfolding IsReady new_writer_with_capacity
writer-IsReady = (refl, omega arith)

abbrev numbers : List ℕ
numbers = 258 ∷ 7 ∷ []

write-read_example :
    ReadsBack (write_uint16s big numbers) (read_uint16s big 2) numbers writer (9 ∷ [])
    × ReadsBack (write_uint32s big numbers) (read_uint32s big 2) numbers writer (9 ∷ [])
    × ReadsBack (write_uint64s big numbers) (read_uint64s big 2) numbers writer (9 ∷ [])
    × ReadsBack (write_uint8s (1 ∷ [])) (read_uint8s 1) (1 ∷ []) writer (9 ∷ [])
    × ReadsBack (write_bytes (1 ∷ [])) (read_bytes 1) (1 ∷ []) writer (9 ∷ [])
    × ReadsBack (write_string (1 ∷ [])) (read_string 1) (1 ∷ []) writer (9 ∷ [])
    × ReadsBack (write_bools (true ∷ [])) (read_bools 1) (true ∷ []) writer (9 ∷ [])
write-read_example =
    write-read big numbers numbers numbers (1 ∷ []) (true ∷ []) writer (9 ∷ []) writer-IsReady
      (omega arith, (omega arith, tt)) (omega arith, (omega arith, tt))
      (omega arith, (omega arith, tt))

-- A slice of length 0 with room behind it, as `make([]byte, 0, 8)` gives one, is not grown, and
-- writing a byte by its index panics.
abbrev short : Writer
short = new_writer (0 ∷ 0 ∷ 0 ∷ 0 ∷ 0 ∷ 0 ∷ 0 ∷ 0 ∷ []) 0

short_panics : write_uint8s (1 ∷ []) short ≡ none
unfolding write_uint8s new_writer put_bytes put_byte grow
short_panics = refl
