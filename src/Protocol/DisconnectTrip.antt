-- ===== src/Protocol/DisconnectTrip.antt =====
-- internal/transporter/internal/protocol/disconnect.go: what is decoded from an encoded request.
use due.Base.{Bool, List, [], ap, eqb, false, refl, some, true, ℕ, ◌++◌, ◌<◌, ◌^◌, ◌∙◌, ◌∷◌, ◌≡◌}
use due.Buffer.Order.{big, get, put}
use due.Buffer.Reader.{Read, read_bool, read_int64, read_uint64, read_uint8}
use due.Buffer.Reader.Reads.{Reads, and_then-Reads, slice-Reads}
use due.Buffer.Writer.{
  Writer, bool_byte, bytes, write_bools, write_int64s, write_uint64s, write_uint8s,
}
use due.Buffer.Writer.Appends.{IsReady, put_bytes-Appends, put_words-Appends, words}
use due.Errors.{err, invalid_message, ok, ◌>>=◌}
use due.Protocol.{Route, data_bit}
use due.Protocol.Frames.{
  Each, concat, read_int64-Reads, read_uint64-Reads, read_uint8-Reads, return-Reads, then-Reads,
}
use due.Protocol.RoundTrip.{body-read, head-Frame, preamble, word-Reads}
use due.Session.{Token, zero_token}
use due.Protocol.Calls.{
  Disconnect, decode_disconnect_req, decode_disconnect_req_with_token, disconnect_fields,
  disconnect_ops, encode_disconnect_current_req, encode_disconnect_req, token_fields,
}

read_bool-Reads : (b : Bool) → Reads read_bool (bool_byte b ∷ []) b
unfolding read_bool get
read_bool-Reads true =
    and_then-Reads _ (λ buf. eqb (get big buf) 1) (1 ∷ []) (1 ∷ []) (slice-Reads 1 (1 ∷ []) refl)
read_bool-Reads false =
    and_then-Reads _ (λ buf. eqb (get big buf) 1) (0 ∷ []) (0 ∷ []) (slice-Reads 1 (0 ∷ []) refl)

-- The fields fit their types in Go.
unfoldable pub IsDisconnect : Disconnect → Type 0
IsDisconnect d = (d.seq < 256 ^ 8) × (d.kind < 256) × (d.target < 256 ^ 8)

abbrev disconnect_body : Disconnect → List ℕ → List ℕ
disconnect_body d rest =
    words big 8 (d.seq ∷ [])
    ++ ((d.kind ∷ []) ++ (words big 8 (d.target ∷ []) ++ ((bool_byte d.force ∷ []) ++ rest)))

disconnect_fields-Reads {ℓ} :
    {A : Type ℓ} (d : Disconnect) (next : Disconnect → Read A) (rest : List ℕ) (a : A)
    → IsDisconnect d
    → Reads (next d) rest a
    → Reads (disconnect_fields next) (disconnect_body d rest) a
unfolding IsDisconnect
disconnect_fields-Reads d next rest a (hs, hk, ht) h =
    then-Reads (read_uint64 big) _ (words big 8 (d.seq ∷ [])) _ d.seq a
      (word-Reads (read_uint64 big) d.seq d.seq (read_uint64-Reads d.seq hs))
      (then-Reads read_uint8 _ (d.kind ∷ []) _ d.kind a (read_uint8-Reads d.kind hk) (
        then-Reads (read_int64 big) _ (words big 8 (d.target ∷ [])) _ d.target a
          (word-Reads (read_int64 big) d.target d.target (read_int64-Reads d.target ht))
          (then-Reads read_bool _ (bool_byte d.force ∷ []) rest d.force a (read_bool-Reads d.force)
            h)))

token_fields-Reads :
    (d : Disconnect) (token : Token)
    → token.uid < 256 ^ 8
    → token.generation < 256 ^ 8
    → Reads
        (token_fields d)
        (words big 8 (token.uid ∷ []) ++ words big 8 (token.generation ∷ []))
        (d, token)
token_fields-Reads d token hu hg =
    then-Reads (read_int64 big) _ (words big 8 (token.uid ∷ [])) _ token.uid _
      (word-Reads (read_int64 big) token.uid token.uid (read_int64-Reads token.uid hu))
      (and_then-Reads (read_uint64 big) (λ g. (d, record token { generation = g }))
        (words big 8 (token.generation ∷ [])) token.generation
        (word-Reads (read_uint64 big) token.generation token.generation
          (read_uint64-Reads token.generation hg)))

-- The frames of a request without a token and with one.
abbrev plain : Disconnect → List ℕ
plain d = preamble 20 data_bit Route.disconnect (disconnect_body d [])

abbrev fenced : Disconnect → Token → List ℕ
fenced d token =
    preamble 36 data_bit Route.disconnect
      (disconnect_body d (words big 8 (token.uid ∷ []) ++ words big 8 (token.generation ∷ [])))

decode_plain : (d : Disconnect) → IsDisconnect d → decode_disconnect_req (plain d) ≡ ok d
unfolding decode_disconnect_req put
decode_plain d h =
    body-read (disconnect_fields (λ e r. (ok e, r))) (disconnect_body d []) d 20 data_bit
      Route.disconnect (disconnect_fields-Reads d (λ e r. (ok e, r)) [] d h (return-Reads d))

decode_fenced :
    (d : Disconnect) (token : Token)
    → IsDisconnect d
    → token.uid < 256 ^ 8
    → token.generation < 256 ^ 8
    → decode_disconnect_req_with_token (fenced d token) ≡ ok (d, token)
unfolding decode_disconnect_req_with_token put
decode_fenced d token h hu hg =
    body-read (disconnect_fields token_fields) _ (d, token) 36 data_bit Route.disconnect
      (disconnect_fields-Reads d token_fields _ (d, token) h (token_fields-Reads d token hu hg))

-- For a disconnect request and a token whose fields fit their types, and a writer at its start
-- whose slice reaches to its capacity: both encoders produce a frame;
-- `DecodeDisconnectReqWithToken` reads the request and the token from the fenced one, and the
-- request with the zero token from the other; and `DecodeDisconnectReq`, which knows no tokens,
-- reads the request from the other and refuses the fenced one.
pub disconnect_req-roundtrip :
    (d : Disconnect) (token : Token) (w : Writer)
    → IsReady w
    → w.off ≡ 0
    → IsDisconnect d
    → token.uid < 256 ^ 8
    → token.generation < 256 ^ 8
    → (u v : Writer) × (encode_disconnect_current_req d token w ≡ some u)
      × (decode_disconnect_req_with_token (bytes u) ≡ ok (d, token))
      × (decode_disconnect_req (bytes u) ≡ err invalid_message)
      × (encode_disconnect_req d w ≡ some v)
      × (decode_disconnect_req_with_token (bytes v) ≡ ok (d, zero_token))
      × (decode_disconnect_req (bytes v) ≡ ok d)
unfolding encode_disconnect_req encode_disconnect_current_req Each concat write_uint8s write_int64s
    write_uint64s write_bools decode_disconnect_req decode_disconnect_req_with_token put
disconnect_req-roundtrip d token w r o h hu hg =
    let (u, e, b) =
      head-Frame 36 data_bit d.seq Route.disconnect
        (disconnect_ops d
          (write_int64s big (token.uid ∷ []) ∷ write_uint64s big (token.generation ∷ []) ∷ []))
        ((d.kind ∷ [])
          ∷ words big 8 (d.target ∷ [])
          ∷ (bool_byte d.force ∷ [])
          ∷ words big 8 (token.uid ∷ [])
          ∷ words big 8 (token.generation ∷ [])
          ∷ [])
        (
          put_bytes-Appends (d.kind ∷ []),
          (
            put_words-Appends big 8 (d.target ∷ []),
            (
              put_bytes-Appends (bool_byte d.force ∷ []),
              (
                put_words-Appends big 8 (token.uid ∷ []),
                (put_words-Appends big 8 (token.generation ∷ []), tt),
              ),
            ),
          ),
        )
        w r o in
    let (v, f, c) =
      head-Frame 20 data_bit d.seq Route.disconnect (disconnect_ops d [])
        ((d.kind ∷ []) ∷ words big 8 (d.target ∷ []) ∷ (bool_byte d.force ∷ []) ∷ [])
        (
          put_bytes-Appends (d.kind ∷ []),
          (
            put_words-Appends big 8 (d.target ∷ []),
            (put_bytes-Appends (bool_byte d.force ∷ []), tt),
          ),
        )
        w r o in
    (
      u,
      v,
      e,
      ap decode_disconnect_req_with_token b ∙ decode_fenced d token h hu hg,
      ap decode_disconnect_req b,
      f,
      ap decode_disconnect_req_with_token c
          ∙ ap (λ x. x >>= (λ y. ok (y, zero_token))) (decode_plain d h),
      ap decode_disconnect_req c ∙ decode_plain d h,
    )
