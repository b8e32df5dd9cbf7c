-- ===== src/Protocol/Parse.antt =====
-- internal/transporter/internal/protocol: what the two ends read of any frame, its header
-- (`ParseBuffer` of reader.go) and the code of a response.
use Prim.Native.Nat.{bit_and}
use due.Base.{
  List, Option, [], ap, append-nil, arith, false, length, le→ltb, refl, some, subst, sym, ℕ, ◌++◌,
  ◌<◌, ◌^◌, ◌∙◌, ◌∷◌, ◌≡◌,
}
use due.Buffer.Order.{big, get, get-put, put}
use due.Buffer.Reader.{Reader, read_uint16, seek}
use due.Buffer.Writer.{Writer, bytes, write_uint16s}
use due.Buffer.Writer.Appends.{IsReady, put_words-Appends, words}
use due.Protocol.{Route, data_bit, head, heartbeat_bit, number, parse_buffer, run}
use due.Protocol.Requests.{decode_res, encode_res}
use due.Protocol.RoundTrip.{head-Frame, preamble}
use due.Protocol.Frames.{Each, concat, concat-cons, read_uint16-Reads}
use due.Errors.{ok}
use due.Buffer.Reader.Reads.{IsAt, Reads, and_then-Reads}

parse-preamble :
    (size header seq : ℕ) (route : Route) (rest : List ℕ)
    → bit_and header heartbeat_bit ≡ 0
    → seq < 256 ^ 8
    → parse_buffer (preamble size header route (put big 8 seq ++ rest))
      ≡ some (false, number route, seq)
unfolding parse_buffer put get
parse-preamble size header seq route rest h hs =
    let g = get-put big 8 seq hs in
    rw (h, le→ltb (length (put big 8 seq ++ rest)) 8 (omega arith))
      (ap (λ v. some (false, number route, v)) g)

-- For any frame that is encoded with a header without the heartbeat bit, a sequence number of 64
-- bits and a body that its operations append, `ParseBuffer` reads no heartbeat, the number of the
-- route and the sequence number, whatever message follows; the writer is at its start and its slice
-- reaches to its capacity.
pub parse_head :
    (size header seq : ℕ) (route : Route) (ms : List (Writer → Option Writer)) (bss : List (List ℕ))
    (message : List ℕ) (w : Writer)
    → Each ms bss
    → IsReady w
    → w.off ≡ 0
    → bit_and header heartbeat_bit ≡ 0
    → seq < 256 ^ 8
    → (w' : Writer) × (run (head size header route seq ms) w ≡ some w')
      × (parse_buffer (bytes w' ++ message) ≡ some (false, number route, seq))
unfolding put
parse_head size header seq route ms bss message w each r o h hs =
    let (w', e, b) = head-Frame size header seq route ms bss each w r o in
    let c = concat-cons (words big 8 (seq ∷ [])) bss in
    (
      w',
      e,
      ap (λ bs. parse_buffer (bs ++ message)) (b ∙ ap (preamble size header route) c)
          ∙ parse-preamble size header seq route (concat bss ++ message) h hs,
    )

word16 : (code : ℕ) → code < 256 ^ 2 → Reads (read_uint16 big) (words big 2 (code ∷ [])) code
word16 code h =
    subst (λ bs. Reads (read_uint16 big) bs code) (sym (append-nil (put big 2 code)))
      (read_uint16-Reads code h)

decode_res-bytes :
    (seq code : ℕ) (route : Route)
    → code < 256 ^ 2
    → decode_res (preamble 12 data_bit route (words big 8 (seq ∷ []) ++ words big 2 (code ∷ [])))
      ≡ ok code
unfolding decode_res seek put Reads IsAt
decode_res-bytes seq code route h =
    let frame = preamble 12 data_bit route (words big 8 (seq ∷ []) ++ words big 2 (code ∷ [])) in
    let r : Reader = record { buf = frame; off = 14 } in
    let (r', e, _) =
      and_then-Reads (read_uint16 big) (λ c. c) (words big 2 (code ∷ [])) code (word16 code h) r []
        (omega arith, refl) in
    ap (λ x. x.0) e

-- For a 16-bit code, and a writer at its start whose slice reaches to its capacity, a response
-- under any route is encoded without a panic and decodes to its code.
pub res-roundtrip :
    (seq code : ℕ) (route : Route) (w : Writer)
    → IsReady w
    → w.off ≡ 0
    → code < 256 ^ 2
    → (w' : Writer) × (encode_res route seq code w ≡ some w') × (decode_res (bytes w') ≡ ok code)
unfolding encode_res write_uint16s Each concat
res-roundtrip seq code route w r o h =
    let (w', e, b) =
      head-Frame 12 data_bit seq route (write_uint16s big (code ∷ []) ∷ [])
        (words big 2 (code ∷ []) ∷ []) (put_words-Appends big 2 (code ∷ []), tt) w r o in
    (w', e, ap decode_res b ∙ decode_res-bytes seq code route h)
