-- ===== src/Buffer/Codec.antt =====
-- core/buffer: the operations of writer.go and reader.go as formats of one codec.
use due.Errors.{ok}
use due.Buffer.Writer.{
  Writer, bool_byte, bytes, write_bools, write_bytes, write_string, write_uint16s, write_uint32s,
  write_uint64s, write_uint8s,
}
use due.Base.{
  All, Bool, List, Option, ap, append_assoc, arith, drop, drop-append_length, length, length-append,
  length-take_le, map, some, subst, take, take-append_length, ℕ, ◌++◌, ◌<◌, ◌^◌, ◌∙◌, ◌≡◌, ◌≤◌,
}
use due.Buffer.Writer.Appends.{
  Appends, IsReady, put_bytes-Appends, put_words-Appends, words, write_bools-Appends,
  write_bytes-Appends,
}
use due.Buffer.Reader.{
  Read, Reader, read_bools, read_bytes, read_string, read_uint16s, read_uint32s, read_uint64s,
  read_uint8s,
}
use due.Buffer.Order.{ByteOrder}
use due.Buffer.Reader.Reads.{
  IsAt, Reads, read_bools-Reads, read_bytes-Reads, read_some-Reads, read_string-Reads,
  read_uint8s-Reads, read_words-Reads,
}

-- Some bytes are appended by the write operation, and give `a` back to the read operation.
pub RoundTrips {ℓ} : {A : Type ℓ} → (Writer → Option Writer) → Read A → A → Type ℓ
RoundTrips m n a = (bs : List ℕ) × Appends m bs × Reads n bs a

abbrev pub Fits : ℕ → List ℕ → Type 0
Fits k vs = All (λ v. v < 256 ^ k) vs

-- The write operation runs on `w`, and the read operation, from where `w` stood and whatever
-- follows, gives `a` back and stops where the writer did.
pub ReadsBack {ℓ} : {A : Type ℓ} → (Writer → Option Writer) → Read A → A → Writer → List ℕ → Type ℓ
ReadsBack m n a w rest =
    (w' : Writer) × (r : Reader) × (m w ≡ some w')
    × (take w.off (bytes w') ≡ bytes w)
    × (n (record { buf = bytes w' ++ rest; off = w.off }) ≡ (ok a, r))

length-bytes : (w : Writer) → IsReady w → length (bytes w) ≡ w.off
unfolding IsReady
length-bytes w h = length-take_le w.off w.mem (omega (arith, h.1))

RoundTrips-ReadsBack {ℓ} :
    {A : Type ℓ} (m : Writer → Option Writer) (n : Read A) (a : A) (w : Writer) (rest : List ℕ)
    → IsReady w
    → RoundTrips m n a
    → ReadsBack m n a w rest
unfolding RoundTrips ReadsBack Appends Reads IsAt
RoundTrips-ReadsBack m n a w rest h (bs, appends, reads) =
    let (w', e, _, b) = appends w h in
    let l = length-bytes w h in
    let c : bytes w' ++ rest ≡ bytes w ++ (bs ++ rest) =
      ap (λ xs. xs ++ rest) b ∙ append_assoc (bytes w) bs rest in
    let d =
      subst (λ k. drop k (bytes w ++ (bs ++ rest)) ≡ bs ++ rest) l
        (drop-append_length (bytes w) (bs ++ rest)) in
    let t = subst (λ k. take k (bytes w ++ bs) ≡ bytes w) l (take-append_length (bytes w) bs) in
    let room : w.off ≤ length (bytes w' ++ rest) =
      omega (arith, l, ap length c, length-append (bytes w) (bs ++ rest)) in
    let (r, f, _) =
      reads (record { buf = bytes w' ++ rest; off = w.off }) rest (room, ap (drop w.off) c ∙ d) in
    (w', r, e, ap (take w.off) b ∙ t, f)

-- On a writer whose slice reaches to its capacity each of the bulk write operations for unsigned
-- words, bytes, strings and bools runs without a panic and keeps what was written before, and the
-- read operation of its type gives back the values, if they fit the type, in either byte order,
-- whatever stands before and behind them.
pub write-read :
    (o : ByteOrder) (u16s u32s u64s bs : List ℕ) (flags : List Bool) (w : Writer) (rest : List ℕ)
    → IsReady w
    → Fits 2 u16s
    → Fits 4 u32s
    → Fits 8 u64s
    → ReadsBack (write_uint16s o u16s) (read_uint16s o (length u16s)) u16s w rest
      × ReadsBack (write_uint32s o u32s) (read_uint32s o (length u32s)) u32s w rest
      × ReadsBack (write_uint64s o u64s) (read_uint64s o (length u64s)) u64s w rest
      × ReadsBack (write_uint8s bs) (read_uint8s (length bs)) bs w rest
      × ReadsBack (write_bytes bs) (read_bytes (length bs)) bs w rest
      × ReadsBack (write_string bs) (read_string (length bs)) bs w rest
      × ReadsBack (write_bools flags) (read_bools (length flags)) flags w rest
unfolding RoundTrips write_uint16s write_uint32s write_uint64s write_uint8s write_string
    read_uint16s read_uint32s read_uint64s
write-read o u16s u32s u64s bs flags w rest h f2 f4 f8 = (
  RoundTrips-ReadsBack _ _ u16s w rest h
      (words o 2 u16s, put_words-Appends o 2 u16s, read_some-Reads o 2 u16s f2),
  RoundTrips-ReadsBack _ _ u32s w rest h
      (words o 4 u32s, put_words-Appends o 4 u32s, read_words-Reads o 4 u32s f4),
  RoundTrips-ReadsBack _ _ u64s w rest h
      (words o 8 u64s, put_words-Appends o 8 u64s, read_some-Reads o 8 u64s f8),
  RoundTrips-ReadsBack _ _ bs w rest h (bs, put_bytes-Appends bs, read_uint8s-Reads bs),
  RoundTrips-ReadsBack _ _ bs w rest h (bs, write_bytes-Appends bs, read_bytes-Reads bs),
  RoundTrips-ReadsBack _ _ bs w rest h (bs, write_bytes-Appends bs, read_string-Reads bs),
  RoundTrips-ReadsBack _ _ flags w rest h
      (map bool_byte flags, write_bools-Appends flags, read_bools-Reads flags),
)
