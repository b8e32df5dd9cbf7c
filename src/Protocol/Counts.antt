-- ===== src/Protocol/Counts.antt =====
-- internal/transporter/internal/protocol/stat.go, and what is decoded from the responses that count.
use due.Base.{
  Bool-cases, List, Option, [], ap, ap₂, arith, eqb, false, if◌then◌else◌, inl, inr, length, refl,
  some, true, ℕ, ◌%◌, ◌&&◌, ◌++◌, ◌-◌, ◌/◌, ◌<◌, ◌^◌, ◌||◌, ◌∙◌, ◌∷◌, ◌≡◌,
}
use due.Buffer.Order.{big, put}
use due.Buffer.Reader.{
  Read, Reader, and_then, forward, new_reader, read_uint16, read_uint64, read_uint8, seek,
  seek_start,
}
use due.Buffer.Reader.Reads.{IsAt, Reads, and_then-Reads}
use due.Buffer.Writer.{Writer, bytes, write_uint16s, write_uint8s}
use due.Buffer.Writer.Appends.{IsReady, put_words-Appends, words}
use due.Errors.{Result, err, invalid_message, ok}
use due.Protocol.{Route, data_bit, head, run, size_bytes}
use due.Protocol.Frames.{
  Each, concat, read_uint16-Reads, read_uint64-Reads, return-Reads, then-Reads,
}
use due.Protocol.RoundTrip.{head-Frame, preamble}
use due.Protocol.Totals.{
  decode_total_res, encode_total_res, has_total, total_bytes, total_field, total_field-Each,
  total_of,
}

unfoldable pub encode_stat_req : ℕ → ℕ → Writer → Option Writer
encode_stat_req seq kind =
    run (head (15 - size_bytes) data_bit Route.stat seq (write_uint8s (kind ∷ []) ∷ []))

unfoldable pub decode_stat_req : List ℕ → Result (ℕ × ℕ)
decode_stat_req frame =
    if eqb (length frame) 15
    then (and_then (seek (forward 6) seek_start (new_reader frame)) λ _ r0.
        and_then (read_uint64 big r0)
          λ seq r1. and_then (read_uint8 r1) λ kind r2. (ok (seq, kind), r2)).0
    else err invalid_message

unfoldable pub encode_stat_res : ℕ → ℕ → List ℕ → Writer → Option Writer
encode_stat_res seq code totals = encode_total_res Route.stat seq code totals

-- The code stays 0, as nothing is assigned to it.
unfoldable pub decode_stat_res : List ℕ → Result (ℕ × ℕ)
decode_stat_res frame =
    if eqb (length frame) 24 || eqb (length frame) 16
    then (and_then (seek (forward 14) seek_start (new_reader frame)) λ _ r0.
        if eqb (length frame) 24
        then and_then (read_uint64 big r0) (λ total r1. (ok (0, total), r1))
        else (ok (0, 0), r0)).0
    else err invalid_message

-- A reader behind the sequence number of a response.
tail-read {ℓ} :
    {A : Type ℓ} (m : Read A) (bs rest : List ℕ) (a : A) (size seq : ℕ) (route : Route)
    → Reads m bs a
    → (and_then
        (seek
          (forward 14)
          seek_start
          (new_reader (preamble size data_bit route (words big 8 (seq ∷ []) ++ (bs ++ rest)))))
        (λ _ r. m r)).0
      ≡ ok a
unfolding IsAt Reads put seek
tail-read m bs rest a size seq route h =
    let r : Reader = record {
      buf = preamble size data_bit route (words big 8 (seq ∷ []) ++ (bs ++ rest));
      off = 14;
    } in
    let (r', e, _) = h r rest (omega arith, refl) in ap (λ x. x.0) e

-- The response with a total, and the one without.
abbrev full : Route → ℕ → ℕ → List ℕ
full route seq t =
    preamble 20 data_bit route
      (words big 8 (seq ∷ []) ++ (words big 2 (0 ∷ []) ++ words big 8 (t ∷ [])))

abbrev short : Route → ℕ → ℕ → List ℕ
short route seq code =
    preamble 12 data_bit route (words big 8 (seq ∷ []) ++ words big 2 (code ∷ []))

full-decoded :
    (route : Route) (seq t : ℕ) → t < 256 ^ 8 → decode_total_res (full route seq t) ≡ ok (0, t)
unfolding decode_total_res put
full-decoded route seq t h =
    tail-read
      (λ r0. and_then (read_uint16 big r0) λ code r1.
        if eqb code 0 && true
        then and_then (read_uint64 big r1) (λ total r2. (ok (code, total), r2))
        else (ok (code, 0), r1))
      (words big 2 (0 ∷ []) ++ words big 8 (t ∷ [])) [] (0, t) 20 seq route
      (then-Reads (read_uint16 big) _ (put big 2 0) (put big 8 t) 0 (0, t)
        (read_uint16-Reads 0 (omega arith))
        (and_then-Reads (read_uint64 big) (λ total. (0, total)) (put big 8 t) t
          (read_uint64-Reads t h)))

short-decoded :
    (route : Route) (seq code : ℕ)
    → code < 256 ^ 2
    → decode_total_res (short route seq code) ≡ ok (code, 0)
unfolding decode_total_res put
short-decoded route seq code h =
    tail-read
      (λ r0. and_then (read_uint16 big r0) λ c r1.
        if eqb c 0 && false
        then and_then (read_uint64 big r1) (λ total r2. (ok (c, total), r2))
        else (ok (c, 0), r1))
      (words big 2 (code ∷ [])) [] (code, 0) 12 seq route
      (then-Reads (read_uint16 big) _ (put big 2 code) [] code (code, 0) (read_uint16-Reads code h)
        (elim (Bool-cases (eqb code 0)) [
          | inl e ↦ rw (e) (return-Reads (code, 0))
          | inr e ↦ rw (e) (return-Reads (code, 0))
        ]))

-- The full response with any two bytes for the code.
abbrev coded : Route → ℕ → ℕ → ℕ → ℕ → List ℕ
coded route seq t a b =
    preamble 20 data_bit route (words big 8 (seq ∷ []) ++ (a ∷ b ∷ words big 8 (t ∷ [])))

full-stat :
    (route : Route) (seq t : ℕ)
    → t < 256 ^ 8
    → decode_stat_res (full route seq t) ≡ ok (0, t / 2 ^ 16)
unfolding decode_stat_res put
full-stat route seq t h =
    let u = t / 256 / 256 in
    let high : 0 ≡ u / 256 / 256 / 256 / 256 / 256 / 256 / 256 % 256 = omega (arith, h) in
    let low : 0 ≡ u / 256 / 256 / 256 / 256 / 256 / 256 % 256 = omega (arith, h) in
    let small : u < 256 ^ 8 = omega (arith, h) in
    let shifted : u ≡ t / 2 ^ 16 = omega arith in
    ap₂ (λ a b. decode_stat_res (coded route seq t a b)) high low
    ∙ tail-read (λ r0. and_then (read_uint64 big r0) (λ total r1. (ok (0, total), r1)))
        (put big 8 u) (t / 256 % 256 ∷ t % 256 ∷ []) (0, u) 20 seq route
        (and_then-Reads (read_uint64 big) (λ total. (0, total)) (put big 8 u) u
          (read_uint64-Reads u small))
    ∙ ap (λ v. ok (0, v)) shifted

short-stat : (route : Route) (seq code : ℕ) → decode_stat_res (short route seq code) ≡ ok (0, 0)
unfolding decode_stat_res put seek
short-stat route seq code = refl

abbrev pub carried : ℕ → List ℕ → ℕ
carried code totals = if has_total code totals then total_of totals else 0

code_zero : (code : ℕ) (totals : List ℕ) → has_total code totals ≡ true → code ≡ 0
code_zero code totals h = ground arith

res-Frame :
    (route : Route) (seq code : ℕ) (totals : List ℕ) (w : Writer)
    → IsReady w
    → w.off ≡ 0
    → (u : Writer) × (encode_total_res route seq code totals w ≡ some u)
      × (bytes u ≡ (
          if has_total code totals then full route seq (total_of totals) else short route seq code))
unfolding encode_total_res Each write_uint16s total_bytes concat
res-Frame route seq code totals w r o =
    let (u, e, b) =
      head-Frame (if has_total code totals then 20 else 12) data_bit seq route
        (write_uint16s big (code ∷ []) ∷ total_field code totals)
        (words big 2 (code ∷ []) ∷ total_bytes code totals)
        (put_words-Appends big 2 (code ∷ []), total_field-Each code totals) w r o in
    (
      u,
      e,
      b ∙ elim (Bool-cases (has_total code totals)) [
        | inl h ↦ rw (h, code_zero code totals h) refl
        | inr h ↦ rw (h) refl
      ],
    )

-- For a 16-bit code and a first total of 64 bits, and a writer at its start whose slice reaches to
-- its capacity: the responses are encoded without a panic; `DecodeMulticastRes` gives back the code
-- and the total, which counts as 0 if the code is not OK; but `DecodeStatRes` answers the code 0
-- whatever the code was, and the total divided by 2^16, as it reads the total from where the code
-- stands.
pub stat_res-decoded :
    (route : Route) (seq code : ℕ) (totals : List ℕ) (w : Writer)
    → IsReady w
    → w.off ≡ 0
    → code < 256 ^ 2
    → total_of totals < 256 ^ 8
    → (u v : Writer) × (encode_total_res route seq code totals w ≡ some u)
      × (decode_total_res (bytes u) ≡ ok (code, carried code totals))
      × (encode_stat_res seq code totals w ≡ some v)
      × (decode_stat_res (bytes v) ≡ ok (0, carried code totals / 2 ^ 16))
unfolding encode_stat_res
stat_res-decoded route seq code totals w r o hc ht =
    let (u, e, b) = res-Frame route seq code totals w r o in
    let (v, f, d) = res-Frame Route.stat seq code totals w r o in
    (
      u,
      v,
      e,
      ap decode_total_res b ∙ elim (Bool-cases (has_total code totals)) [
        | inl h ↦ rw (h, code_zero code totals h) (full-decoded route seq (total_of totals) ht)
        | inr h ↦ rw (h) (short-decoded route seq code hc)
      ],
      f,
      ap decode_stat_res d ∙ elim (Bool-cases (has_total code totals)) [
        | inl h ↦ rw (h) (full-stat Route.stat seq (total_of totals) ht)
        | inr h ↦ rw (h) (short-stat Route.stat seq code)
      ],
    )
