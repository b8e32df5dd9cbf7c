-- ===== src/Protocol/MulticastTrip.antt =====
-- internal/transporter/internal/protocol/multicast.go: what is decoded from an encoded multicast.
use Prim.Native.Nat.{bit_and}
use due.Base.{
  All, List, Option, [], ap, append-nil, ap₂, arith, drop, drop-add, drop-append_length, eqb,
  length, refl, some, subst, sym, ℕ, ◌%◌, ◌*◌, ◌++◌, ◌+◌, ◌-◌, ◌<◌, ◌^◌, ◌∙◌, ◌∷◌, ◌≡◌,
}
use due.Buffer.Order.{big, put}
use due.Buffer.Reader.{read_int64s, read_uint16, read_uint64, read_uint64s, read_uint8}
use due.Buffer.Reader.Reads.{Reads, and_then-Reads, read_some-Reads}
use due.Buffer.Writer.{Writer, bytes, write_int64s, write_uint16s, write_uint8s}
use due.Buffer.Writer.Appends.{IsReady, length-words, put_bytes-Appends, put_words-Appends, words}
use due.Errors.{ok}
use due.Protocol.{Route, disconnect_bit}
use due.Protocol.Requests.{push_header}
use due.Protocol.RoundTrip.{head-Frame, preamble, word-Reads}
use due.Protocol.Frames.{
  Each, concat, read_uint16-Reads, read_uint64-Reads, read_uint8-Reads, then-Reads,
}
use due.Protocol.PushTrip.{disconnect_back}
use due.Protocol.PublishTrip.{with_header-Reads}
use due.Protocol.Groups.{
  Multicast, decode_multicast_req, encode_multicast_req, multicast_fields, targets_end,
}

-- Up to the number of targets from which on the sum in `DecodeMulticastReq` wraps around.
unfoldable pub IsMulticast : Multicast → Type 0
IsMulticast m =
    (m.seq < 256 ^ 8)
    × (m.kind < 256)
    × All (λ v. v < 256 ^ 8) m.targets
    × (length m.targets < 8190)

abbrev multicast_body : Multicast → List ℕ
multicast_body m =
    words big 8 (m.seq ∷ [])
    ++ ((m.kind ∷ []) ++ (words big 2 (length m.targets ∷ []) ++ words big 8 m.targets))

short-Reads : (v : ℕ) → v < 256 ^ 2 → Reads (read_uint16 big) (words big 2 (v ∷ [])) v
short-Reads v h =
    subst (λ bs. Reads (read_uint16 big) bs v) (sym (append-nil (put big 2 v)))
      (read_uint16-Reads v h)

targets-Reads :
    (vs : List ℕ)
    → All (λ v. v < 256 ^ 8) vs
    → Reads (read_int64s big (length vs)) (words big 8 vs) vs
unfolding read_int64s read_uint64s
targets-Reads vs h = read_some-Reads big 8 vs h

read_back : Multicast → List ℕ → Multicast
read_back m frame = record m {
  disconnect = eqb (bit_and (push_header m.disconnect) disconnect_bit) disconnect_bit;
  message = drop (targets_end (length m.targets)) frame;
}

multicast_fields-Reads :
    (m : Multicast) (frame : List ℕ)
    → IsMulticast m
    → Reads
        (multicast_fields frame (push_header m.disconnect))
        (multicast_body m)
        (read_back m frame)
unfolding IsMulticast read_back
multicast_fields-Reads m frame (hs, hk, ht, hc) =
    let n = length m.targets in
    then-Reads (read_uint64 big) _ (words big 8 (m.seq ∷ [])) _ m.seq _
      (word-Reads (read_uint64 big) m.seq m.seq (read_uint64-Reads m.seq hs))
      (then-Reads read_uint8 _ (m.kind ∷ []) _ m.kind _ (read_uint8-Reads m.kind hk) (
        then-Reads (read_uint16 big) _ (words big 2 (n ∷ [])) _ n _
          (short-Reads n (omega (arith, hc)))
          (and_then-Reads (read_int64s big n) _ (words big 8 m.targets) m.targets
            (targets-Reads m.targets ht))))

drop-multicast :
    (m : Multicast) (size : ℕ)
    → IsMulticast m
    → drop
        (targets_end (length m.targets))
        (preamble size (push_header m.disconnect) Route.multicast (multicast_body m) ++ m.message)
      ≡ m.message
unfolding IsMulticast put
drop-multicast m size (hs, hk, ht, hc) =
    let ts = words big 8 m.targets in
    let frame =
      preamble size (push_header m.disconnect) Route.multicast (multicast_body m) ++ m.message in
    let l = length-words big 8 m.targets in
    let e : targets_end (length m.targets) ≡ 17 + length ts = omega (arith, hc, l) in
    let front : drop 17 frame ≡ ts ++ m.message = refl in
    ap (λ k. drop k frame) e
    ∙ drop-add 17 (length ts) frame
    ∙ ap (drop (length ts)) front
    ∙ drop-append_length ts m.message

decode_multicast :
    (m : Multicast) (size : ℕ)
    → IsMulticast m
    → decode_multicast_req
        (preamble size (push_header m.disconnect) Route.multicast (multicast_body m) ++ m.message)
      ≡ ok m
unfolding decode_multicast_req read_back
decode_multicast m size h =
    let frame =
      preamble size (push_header m.disconnect) Route.multicast (multicast_body m) ++ m.message in
    let same : read_back m frame ≡ m =
      ap₂ (λ d bs. record m { disconnect = d; message = bs }) (disconnect_back m.disconnect)
        (drop-multicast m size h) in
    with_header-Reads m.disconnect Route.multicast size (multicast_body m) m.message
      (read_back m frame) multicast_fields (multicast_fields-Reads m frame h)
    ∙ ap ok same

-- For a multicast of less than 8190 targets whose fields fit their types, and a writer at its start
-- whose slice reaches to its capacity, the encoder produces a frame, and the decoder reads from it
-- the same multicast with its targets, its message and its disconnect bit.
pub multicast_req-roundtrip :
    (m : Multicast) (w : Writer)
    → IsReady w
    → w.off ≡ 0
    → IsMulticast m
    → (frame : List ℕ) × (encode_multicast_req m w ≡ some frame)
      × (decode_multicast_req frame ≡ ok m)
unfolding encode_multicast_req Each concat write_uint8s write_uint16s write_int64s IsMulticast
multicast_req-roundtrip m w r o h =
    let n = length m.targets in
    let size = 17 + n * 8 - 4 + length m.message in
    let d = push_header m.disconnect in
    let fits : n % 2 ^ 16 ≡ n = omega (arith, h) in
    let ms : List (Writer → Option Writer) =
      write_uint8s (m.kind ∷ [])
      ∷ write_uint16s big (n % 2 ^ 16 ∷ [])
      ∷ write_int64s big m.targets
      ∷ [] in
    let bss : List (List ℕ) =
      (m.kind ∷ []) ∷ words big 2 (n % 2 ^ 16 ∷ []) ∷ words big 8 m.targets ∷ [] in
    let each : Each ms bss = (
      put_bytes-Appends (m.kind ∷ []),
      (put_words-Appends big 2 (n % 2 ^ 16 ∷ []), (put_words-Appends big 8 m.targets, tt)),
    ) in
    let (w', e, b) = head-Frame size d m.seq Route.multicast ms bss each w r o in
    let body =
      subst
        (λ k.
          bytes w'
          ≡ preamble size d Route.multicast (
              words big 8 (m.seq ∷ [])
              ++ ((m.kind ∷ []) ++ (words big 2 (k ∷ []) ++ words big 8 m.targets))))
        fits b in
    (
      bytes w' ++ m.message,
      rw (e, encode_multicast_req) refl,
      ap (λ bs. decode_multicast_req (bs ++ m.message)) body ∙ decode_multicast m size h,
    )
