-- ===== src/Protocol/Totals.antt =====
-- internal/transporter/internal/protocol: the responses that say how many users were reached
-- (multicast.go, broadcast.go and publish.go), and the sizes that they announce.
use due.Base.{
  Bool, Bool-cases, List, Option, [], ap, arith, eqb, if◌then◌else◌, inl, inr, length, not, refl,
  some, take, true, ℕ, ◌&&◌, ◌+◌, ◌<◌, ◌^◌, ◌||◌, ◌↔◌, ◌∙◌, ◌∷◌, ◌≡◌,
}
use due.Buffer.Order.{big, get, get-put, put}
use due.Buffer.Reader.{and_then, forward, new_reader, read_uint16, read_uint64, seek, seek_start}
use due.Buffer.Writer.{Writer, bytes, write_uint16s, write_uint64s}
use due.Buffer.Writer.Appends.{IsReady, put_words-Appends, words}
use due.Errors.{Result, err, invalid_message, ok}
use due.Protocol.{Route, data_bit, head, run}
use due.Protocol.Frames.{Each, concat}
use due.Protocol.RoundTrip.{head-Frame, length-preamble, preamble}

-- `total[0]`, where there is one; 0 is left out of the frame as no total is.
abbrev pub total_of : List ℕ → ℕ
total_of [] = 0
total_of (t ∷ ts) = t

abbrev pub has_total : ℕ → List ℕ → Bool
has_total code totals = eqb code 0 && not (eqb (total_of totals) 0)

abbrev pub total_field : ℕ → List ℕ → List (Writer → Option Writer)
total_field code totals =
    if has_total code totals then write_uint64s big (total_of totals ∷ []) ∷ [] else []

-- `EncodeMulticastRes` and `EncodeBroadcastRes`, by the route.
unfoldable pub encode_total_res : Route → ℕ → ℕ → List ℕ → Writer → Option Writer
encode_total_res route seq code totals = run (
    head (if has_total code totals then 20 else 12) data_bit route seq
      (write_uint16s big (code ∷ []) ∷ total_field code totals))

unfoldable pub encode_publish_res : ℕ → ℕ → List ℕ → Writer → Option Writer
encode_publish_res seq code totals =
    run
      (head 20 data_bit Route.publish seq (write_uint16s big (code ∷ []) ∷ total_field code totals))

-- `DecodeMulticastRes`, `DecodeBroadcastRes` and `DecodePublishRes`.
unfoldable pub decode_total_res : List ℕ → Result (ℕ × ℕ)
decode_total_res frame =
    if eqb (length frame) 24 || eqb (length frame) 16
    then (and_then (seek (forward 14) seek_start (new_reader frame)) λ _ r0.
        and_then (read_uint16 big r0) λ code r1.
          if eqb code 0 && eqb (length frame) 24
          then and_then (read_uint64 big r1) (λ total r2. (ok (code, total), r2))
          else (ok (code, 0), r1)).0
    else err invalid_message

-- The size that the first four bytes of a frame announce.
abbrev pub announced : List ℕ → ℕ
announced frame = get big (take 4 frame)

unfoldable pub total_bytes : ℕ → List ℕ → List (List ℕ)
total_bytes code totals =
    if has_total code totals then words big 8 (total_of totals ∷ []) ∷ [] else []

pub total_field-Each :
    (code : ℕ) (totals : List ℕ) → Each (total_field code totals) (total_bytes code totals)
unfolding Each total_bytes write_uint64s
total_field-Each code totals = elim (Bool-cases (has_total code totals)) [
  | inl e ↦ rw (e) (put_words-Appends big 8 (total_of totals ∷ []), tt)
  | inr e ↦ rw (e) tt
]

length-total_bytes :
    (seq code : ℕ) (totals : List ℕ)
    → length (concat (words big 8 (seq ∷ []) ∷ words big 2 (code ∷ []) ∷ total_bytes code totals))
      ≡ (if has_total code totals then 18 else 10)
unfolding total_bytes concat put
length-total_bytes seq code totals = elim (Bool-cases (has_total code totals)) [
  | inl e ↦ rw (e) refl
  | inr e ↦ rw (e) refl
]

announced-preamble :
    (size header : ℕ) (route : Route) (bs : List ℕ)
    → size < 256 ^ 4
    → announced (preamble size header route bs) ≡ size
unfolding put get
announced-preamble size header route bs h = get-put big 4 size h

counted-Frame :
    (size seq code : ℕ) (route : Route) (totals : List ℕ)
    → size < 256 ^ 4
    → (w : Writer) → IsReady w
    → w.off ≡ 0
    → (w' : Writer) × (run
          (head size data_bit route seq (write_uint16s big (code ∷ []) ∷ total_field code totals))
          w
        ≡ some w')
      × (announced (bytes w') ≡ size)
      × (length (bytes w') ≡ 6 + (if has_total code totals then 18 else 10))
unfolding Each write_uint16s
counted-Frame size seq code route totals h w r o =
    let body =
      concat (words big 8 (seq ∷ []) ∷ words big 2 (code ∷ []) ∷ total_bytes code totals) in
    let (w', e, b) =
      head-Frame size data_bit seq route (write_uint16s big (code ∷ []) ∷ total_field code totals)
        (words big 2 (code ∷ []) ∷ total_bytes code totals)
        (put_words-Appends big 2 (code ∷ []), total_field-Each code totals) w r o in
    (
      w',
      e,
      ap announced b ∙ announced-preamble size data_bit route body h,
      ap length b
          ∙ length-preamble size data_bit route body
          ∙ ap (λ n. 6 + n) (length-total_bytes seq code totals),
    )

-- For a writer at its start whose slice reaches to its capacity, the response to a multicast or a
-- broadcast is encoded without a panic and is exactly as long as its size field announces; the
-- response to a publication is encoded too, and is as long as it announces exactly if it carries a
-- total, which takes the code OK and a first total other than 0.
pub total_res-announced :
    (route : Route) (seq code : ℕ) (totals : List ℕ) (w : Writer)
    → IsReady w
    → w.off ≡ 0
    → (u v : Writer) × (encode_total_res route seq code totals w ≡ some u)
      × (encode_publish_res seq code totals w ≡ some v)
      × (length (bytes u) ≡ 4 + announced (bytes u))
      × ((length (bytes v) ≡ 4 + announced (bytes v)) ↔ (has_total code totals ≡ true))
unfolding encode_total_res encode_publish_res
total_res-announced route seq code totals w r o =
    let size = if has_total code totals then 20 else 12 in
    let small : size < 256 ^ 4 = ground arith in
    let (u, e, a, l) = counted-Frame size seq code route totals small w r o in
    let (v, f, b, m) = counted-Frame 20 seq code Route.publish totals (omega arith) w r o in
    (u, v, e, f, ground (arith, a, l), ground (arith, b, m))
