-- ===== src/Protocol/PublishTrip.antt =====
-- internal/transporter/internal/protocol/publish.go: what is decoded from an encoded publication.
use Prim.Native.Nat.{bit_and}
use due.Base.{
  Bool, List, Option, [], ap, ap₂, arith, drop, drop-add, drop-append_length, eqb, length, refl,
  some, subst, ℕ, ◌%◌, ◌++◌, ◌+◌, ◌-◌, ◌<◌, ◌^◌, ◌∙◌, ◌∷◌, ◌≡◌, ◌≤◌, string_eq,
}
use due.Buffer.Order.{big, put}
use due.Buffer.Reader.{
  Read, Reader, and_then, forward, read_string, read_uint64, read_uint8, seek, seek_current,
}
use due.Buffer.Reader.Reads.{IsAt, Reads, and_then-Reads, read_string-Reads}
use due.Buffer.Writer.{Writer, bytes, write_string, write_uint8s}
use due.Buffer.Writer.Appends.{IsReady, put_bytes-Appends, words, write_bytes-Appends}
use due.Errors.{ok}
use due.Protocol.{Route, disconnect_bit, number}
use due.Protocol.Requests.{push_header}
use due.Protocol.RoundTrip.{head-Frame, preamble, word-Reads}
use due.Protocol.Frames.{Each, concat, read_uint64-Reads, read_uint8-Reads, then-Reads}
use due.Protocol.Groups.{
  Publish, channel_end, decode_publish_req, encode_publish_req, publish_fields, with_header,
}
use due.Protocol.PushTrip.{disconnect_back, push_header_byte, skip-Reads}

header-Reads {ℓ} :
    {A : Type ℓ} (d : Bool) (n : ℕ) (body : List ℕ) (a : A) (fields : ℕ → Read A)
    → Reads (fields (push_header d)) body a
    → Reads
        (λ r0.
          and_then
            (read_uint8 r0)
            λ header r1. and_then (seek (forward 1) seek_current r1) λ _ r2. fields header r2)
        ((push_header d ∷ []) ++ (n ∷ body))
        a
header-Reads d n body a fields h =
    then-Reads read_uint8 _ (push_header d ∷ []) (n ∷ body) (push_header d) a
      (read_uint8-Reads (push_header d) (push_header_byte d))
      (skip-Reads (fields (push_header d)) n body a h)

-- What stands behind the sequence number of a request with a disconnect bit is read by `fields`.
pub with_header-Reads {ℓ} :
    {A : Type ℓ} (d : Bool) (route : Route) (size : ℕ) (body message : List ℕ) (a : A)
    (fields : List ℕ → ℕ → Read A)
    → Reads (fields (preamble size (push_header d) route body ++ message) (push_header d)) body a
    → with_header
        (preamble size (push_header d) route body ++ message)
        (fields (preamble size (push_header d) route body ++ message))
      ≡ ok a
unfolding Reads IsAt put seek
with_header-Reads d route size body message a fields h =
    let frame = preamble size (push_header d) route body ++ message in
    let r : Reader = record { buf = frame; off = 4 } in
    let (r', e, _) =
      header-Reads d (number route) body a (fields frame) h r message (omega arith, refl) in
    ap (λ x. x.0) e

unfoldable pub IsPublish : Publish → Type 0
IsPublish p = (p.seq < 256 ^ 8) × (length p.channel ≤ 240)

abbrev publish_body : Publish → List ℕ
publish_body p = words big 8 (p.seq ∷ []) ++ ((length p.channel ∷ []) ++ p.channel)

publish_fields-Reads :
    (p : Publish) (frame : List ℕ)
    → IsPublish p
    → Reads (publish_fields frame (push_header p.disconnect)) (publish_body p) (record p {
      disconnect = eqb (bit_and (push_header p.disconnect) disconnect_bit) disconnect_bit;
      message = drop (channel_end (length p.channel)) frame;
    })
unfolding IsPublish
publish_fields-Reads p frame (hs, hc) =
    let n = length p.channel in
    then-Reads (read_uint64 big) _ (words big 8 (p.seq ∷ [])) _ p.seq _
      (word-Reads (read_uint64 big) p.seq p.seq (read_uint64-Reads p.seq hs))
      (then-Reads read_uint8 _ (n ∷ []) _ n _ (read_uint8-Reads n (omega (arith, hc)))
        (and_then-Reads (read_string n) _ p.channel p.channel (read_string-Reads p.channel)))

drop-publish :
    (p : Publish) (size : ℕ)
    → IsPublish p
    → drop
        (channel_end (length p.channel))
        (preamble size (push_header p.disconnect) Route.publish (publish_body p) ++ p.message)
      ≡ p.message
unfolding IsPublish put
drop-publish p size (hs, hc) =
    let frame =
      preamble size (push_header p.disconnect) Route.publish (publish_body p) ++ p.message in
    let e : channel_end (length p.channel) ≡ 15 + length p.channel = omega (arith, hc) in
    let front : drop 15 frame ≡ p.channel ++ p.message = refl in
    ap (λ k. drop k frame) e
    ∙ drop-add 15 (length p.channel) frame
    ∙ ap (drop (length p.channel)) front
    ∙ drop-append_length p.channel p.message

published_same :
    (p : Publish) (message : List ℕ)
    → message ≡ p.message
    → record p {
      disconnect = eqb (bit_and (push_header p.disconnect) disconnect_bit) disconnect_bit;
      message = message;
    }
      ≡ p
published_same p message e =
    ap₂ (λ d m. record p { disconnect = d; message = m }) (disconnect_back p.disconnect) e

decode_publish :
    (p : Publish) (size : ℕ)
    → IsPublish p
    → decode_publish_req
        (preamble size (push_header p.disconnect) Route.publish (publish_body p) ++ p.message)
      ≡ ok p
unfolding decode_publish_req
decode_publish p size h =
    let frame =
      preamble size (push_header p.disconnect) Route.publish (publish_body p) ++ p.message in
    with_header-Reads p.disconnect Route.publish size (publish_body p) p.message _ publish_fields
      (publish_fields-Reads p frame h)
    ∙ ap ok (published_same p (drop (channel_end (length p.channel)) frame) (drop-publish p size h))

-- For a publication on a channel of at most 240 bytes with a 64-bit sequence number, and a writer
-- at its start whose slice reaches to its capacity, the encoder produces a frame, and the decoder
-- reads from it the same publication with its channel, its message and its disconnect bit.
pub publish_req-roundtrip :
    (p : Publish) (w : Writer)
    → IsReady w
    → w.off ≡ 0
    → IsPublish p
    → (frame : List ℕ) × (encode_publish_req p w ≡ some frame) × (decode_publish_req frame ≡ ok p)
unfolding encode_publish_req decode_publish_req Each concat write_uint8s write_string IsPublish
publish_req-roundtrip p w r o h =
    let n = 11 + length p.channel + length p.message in
    let size = 15 + length p.channel - 4 + length p.message in
    let d = push_header p.disconnect in
    let fits : length p.channel % 2 ^ 8 ≡ length p.channel = omega (arith, h) in
    let ms : List (Writer → Option Writer) =
      write_uint8s (length p.channel % 2 ^ 8 ∷ []) ∷ write_string p.channel ∷ [] in
    let bss : List (List ℕ) = (length p.channel % 2 ^ 8 ∷ []) ∷ p.channel ∷ [] in
    let each : Each ms bss =
      (put_bytes-Appends (length p.channel % 2 ^ 8 ∷ []), (write_bytes-Appends p.channel, tt)) in
    let (w', e, b) = head-Frame size d p.seq Route.publish ms bss each w r o in
    let body =
      subst
        (λ k.
          bytes w'
          ≡ preamble size d Route.publish (words big 8 (p.seq ∷ []) ++ ((k ∷ []) ++ p.channel)))
        fits b in
    (
      bytes w' ++ p.message,
      rw (e, encode_publish_req) refl,
      ap (λ bs. decode_publish_req (bs ++ p.message)) body ∙ decode_publish p size h,
    )
