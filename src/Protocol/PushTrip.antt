-- ===== src/Protocol/PushTrip.antt =====
-- internal/transporter/internal/protocol/push.go: what is decoded from an encoded push request.
use Prim.Native.Nat.{bit_and}
use due.Errors.{ok}
use due.Protocol.RoundTrip.{head-Frame, preamble, word-Reads}
use due.Protocol.Frames.{
  Each, concat, read_int64-Reads, read_uint64-Reads, read_uint8-Reads, then-Reads,
}
use due.Base.{
  Bool, List, Option, [], ap, ap₂, arith, drop, drop-add, eqb, false, length, length-drop, refl,
  some, true, ℕ, ◌++◌, ◌+◌, ◌<◌, ◌^◌, ◌∙◌, ◌∷◌, ◌≡◌,
}
use due.Buffer.Order.{big, put}
use due.Buffer.Reader.{
  Read, Reader, and_then, forward, read_int64, read_uint64, read_uint8, seek, seek_current,
}
use due.Buffer.Writer.Appends.{IsReady, put_bytes-Appends, put_words-Appends, words}
use due.Protocol.{Route, disconnect_bit, number}
use due.Protocol.Requests.{Push, decode_push_req, encode_push_req, push_header, push_req_fields}
use due.Buffer.Reader.Reads.{IsAt, Reads, and_then-Reads}
use due.Buffer.Writer.{Writer, bytes, write_int64s, write_uint64s, write_uint8s}

-- `Seek(1, io.SeekCurrent)` passes over one byte.
pub skip-Reads {ℓ} :
    {A : Type ℓ} (m : Read A) (x : ℕ) (ys : List ℕ) (a : A)
    → Reads m ys a
    → Reads (λ r. and_then (seek (forward 1) seek_current r) λ _ r'. m r') (x ∷ ys) a
unfolding Reads IsAt seek
skip-Reads m x ys a h r rest (b, d) =
    let l = ap length d in
    let e = length-drop r.off r.buf in
    h (record r { off = r.off + 1 }) rest
      (omega (arith, l, e), drop-add r.off 1 r.buf ∙ ap (drop 1) d)

abbrev push_body : Push → List ℕ
push_body p =
    words big 8 (p.seq ∷ [])
    ++ ((p.kind ∷ [])
        ++ (words big 8 (p.target ∷ [])
            ++ (words big 8 (p.uid ∷ []) ++ words big 8 (p.generation ∷ []))))

-- The fields fit their types in Go.
unfoldable pub IsPush : Push → Type 0
IsPush p =
    (p.seq < 256 ^ 8)
    × (p.kind < 256)
    × (p.target < 256 ^ 8)
    × (p.uid < 256 ^ 8)
    × (p.generation < 256 ^ 8)

pub disconnect_back : (d : Bool) → eqb (bit_and (push_header d) disconnect_bit) disconnect_bit ≡ d
disconnect_back true = refl
disconnect_back false = refl

decoded : Push → List ℕ → Push
decoded p frame = record p {
  disconnect = eqb (bit_and (push_header p.disconnect) disconnect_bit) disconnect_bit;
  message = drop 39 frame;
}

decoded_same : (p : Push) (frame : List ℕ) → drop 39 frame ≡ p.message → decoded p frame ≡ p
unfolding decoded
decoded_same p frame e =
    ap₂ (λ d m. record p { disconnect = d; message = m }) (disconnect_back p.disconnect) e

push_fields-Reads :
    (p : Push) (frame : List ℕ)
    → IsPush p
    → Reads (push_req_fields frame (push_header p.disconnect)) (push_body p) (decoded p frame)
unfolding IsPush decoded
push_fields-Reads p frame (hs, hk, ht, hu, hg) =
    let q : ℕ → Push = λ g. record (decoded p frame) { generation = g } in
    then-Reads (read_uint64 big) _ (words big 8 (p.seq ∷ [])) _ p.seq _
      (word-Reads (read_uint64 big) p.seq p.seq (read_uint64-Reads p.seq hs))
      (then-Reads read_uint8 _ (p.kind ∷ []) _ p.kind _ (read_uint8-Reads p.kind hk) (
        then-Reads (read_int64 big) _ (words big 8 (p.target ∷ [])) _ p.target _
          (word-Reads (read_int64 big) p.target p.target (read_int64-Reads p.target ht))
          (then-Reads (read_int64 big) _ (words big 8 (p.uid ∷ [])) _ p.uid _
            (word-Reads (read_int64 big) p.uid p.uid (read_int64-Reads p.uid hu))
            (and_then-Reads (read_uint64 big) q (words big 8 (p.generation ∷ [])) p.generation (
              word-Reads (read_uint64 big) p.generation p.generation
                (read_uint64-Reads p.generation hg))))))

pub push_header_byte : (d : Bool) → push_header d < 256
push_header_byte true = omega arith
push_header_byte false = omega arith

push_frame-Reads :
    (p : Push) (frame : List ℕ)
    → IsPush p
    → Reads
        (λ r0. and_then (read_uint8 r0) λ header r1.
          and_then (seek (forward 1) seek_current r1) λ _ r2. push_req_fields frame header r2)
        ((push_header p.disconnect ∷ []) ++ (number Route.push ∷ push_body p))
        (decoded p frame)
push_frame-Reads p frame h =
    then-Reads read_uint8 _ (push_header p.disconnect ∷ []) (number Route.push ∷ push_body p)
      (push_header p.disconnect) _
      (read_uint8-Reads (push_header p.disconnect) (push_header_byte p.disconnect))
      (skip-Reads (push_req_fields frame (push_header p.disconnect)) 8 (push_body p) _
        (push_fields-Reads p frame h))

decode_push :
    (p : Push) (size : ℕ)
    → IsPush p
    → decode_push_req
        (preamble size (push_header p.disconnect) Route.push (push_body p) ++ p.message)
      ≡ ok p
unfolding decode_push_req Reads IsAt put seek
decode_push p size h =
    let frame = preamble size (push_header p.disconnect) Route.push (push_body p) ++ p.message in
    let r : Reader = record { buf = frame; off = 4 } in
    let (r', e, _) = push_frame-Reads p frame h r p.message (omega arith, refl) in
    let m : drop 39 frame ≡ p.message = refl in ap (λ x. x.0) e ∙ ap ok (decoded_same p frame m)

-- For a push request whose fields fit their types, and a writer at its start whose slice reaches to
-- its capacity, the encoder produces a frame, and the decoder reads from it the request with its
-- message and its disconnect bit.
pub push_req-roundtrip :
    (p : Push) (w : Writer)
    → IsReady w
    → w.off ≡ 0
    → IsPush p
    → (frame : List ℕ) × (encode_push_req p w ≡ some frame) × (decode_push_req frame ≡ ok p)
unfolding encode_push_req write_int64s Each concat write_uint8s write_uint64s
push_req-roundtrip p w r o h =
    let n = 35 + length p.message in
    let ms : List (Writer → Option Writer) =
      write_uint8s (p.kind ∷ [])
      ∷ write_int64s big (p.target ∷ [])
      ∷ write_int64s big (p.uid ∷ [])
      ∷ write_uint64s big (p.generation ∷ [])
      ∷ [] in
    let bss : List (List ℕ) =
      (p.kind ∷ [])
      ∷ words big 8 (p.target ∷ [])
      ∷ words big 8 (p.uid ∷ [])
      ∷ words big 8 (p.generation ∷ [])
      ∷ [] in
    let each : Each ms bss = (
      put_bytes-Appends (p.kind ∷ []),
      (
        put_words-Appends big 8 (p.target ∷ []),
        (put_words-Appends big 8 (p.uid ∷ []), (put_words-Appends big 8 (p.generation ∷ []), tt)),
      ),
    ) in
    let (w', e, b) = head-Frame n (push_header p.disconnect) p.seq Route.push ms bss each w r o in
    (
      bytes w' ++ p.message,
      rw (e, encode_push_req) refl,
      ap (λ bs. decode_push_req (bs ++ p.message)) b ∙ decode_push p n h,
    )
