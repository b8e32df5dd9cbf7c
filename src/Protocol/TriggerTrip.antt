-- ===== src/Protocol/TriggerTrip.antt =====
-- internal/transporter/internal/protocol/trigger.go: what is decoded from an encoded event.
use due.Base.{
  Bool, Bool-cases, List, [], ap, eqb, false, if◌then◌else◌, inl, inr, length, refl, some, true, ℕ,
  ◌++◌, ◌+◌, ◌<◌, ◌^◌, ◌∙◌, ◌∷◌, ◌≡◌,
}
use due.Buffer.Order.{big, get, put}
use due.Buffer.Reader.{read_int64, read_uint64, read_uint8}
use due.Buffer.Reader.Reads.{Reads, and_then-Reads}
use due.Buffer.Writer.{Writer, bytes, write_int64s, write_uint64s, write_uint8s}
use due.Buffer.Writer.Appends.{IsReady, put_bytes-Appends, put_words-Appends, words}
use due.Errors.{ok}
use due.Protocol.{Route, data_bit}
use due.Protocol.Frames.{
  Each, concat, read_int64-Reads, read_uint64-Reads, read_uint8-Reads, return-Reads, then-Reads,
}
use due.Protocol.RoundTrip.{body-read, head-Frame, preamble, word-Reads}
use due.Protocol.Totals.{announced}
use due.Protocol.Calls.{
  Trigger, decode_trigger_req, encode_trigger_req, owner_fields, trigger_fields,
}

-- The fields fit their types in Go.
unfoldable pub IsTrigger : Trigger → Type 0
IsTrigger t =
    (t.seq < 256 ^ 8)
    × (t.event < 256)
    × (t.cid < 256 ^ 8)
    × (t.uid < 256 ^ 8)
    × (t.generation < 256 ^ 8)

abbrev trigger_body : Trigger → List ℕ → List ℕ
trigger_body t rest =
    words big 8 (t.seq ∷ []) ++ ((t.event ∷ []) ++ (words big 8 (t.cid ∷ []) ++ rest))

-- The user and the generation, where there is a user.
abbrev owner_bytes : Trigger → List ℕ
owner_bytes t = words big 8 (t.uid ∷ []) ++ words big 8 (t.generation ∷ [])

trigger_fields-Reads :
    (t u : Trigger) (full : Bool) (rest : List ℕ)
    → IsTrigger t
    → Reads (owner_fields full t.seq t.event t.cid) rest u
    → Reads (trigger_fields full) (trigger_body t rest) u
unfolding IsTrigger
trigger_fields-Reads t u full rest (hs, he, hc, hu, hg) h =
    then-Reads (read_uint64 big) _ (words big 8 (t.seq ∷ [])) _ t.seq u
      (word-Reads (read_uint64 big) t.seq t.seq (read_uint64-Reads t.seq hs))
      (then-Reads read_uint8 _ (t.event ∷ []) _ t.event u (read_uint8-Reads t.event he) (
        then-Reads (read_int64 big) _ (words big 8 (t.cid ∷ [])) rest t.cid u
          (word-Reads (read_int64 big) t.cid t.cid (read_int64-Reads t.cid hc)) h))

owner_fields-Reads :
    (t : Trigger) → IsTrigger t → Reads (owner_fields true t.seq t.event t.cid) (owner_bytes t) t
unfolding IsTrigger
owner_fields-Reads t (hs, he, hc, hu, hg) =
    then-Reads (read_int64 big) _ (words big 8 (t.uid ∷ [])) _ t.uid t
      (word-Reads (read_int64 big) t.uid t.uid (read_int64-Reads t.uid hu))
      (and_then-Reads (read_uint64 big) (λ g. record t { generation = g })
        (words big 8 (t.generation ∷ [])) t.generation
        (word-Reads (read_uint64 big) t.generation t.generation
          (read_uint64-Reads t.generation hg)))

-- What arrives of an event: without a user there is no generation.
abbrev pub arrived : Trigger → Trigger
arrived t = if eqb t.uid 0 then record t { uid = 0; generation = 0 } else t

decode_owned :
    (t : Trigger)
    → IsTrigger t
    → decode_trigger_req (preamble 35 data_bit Route.trigger (trigger_body t (owner_bytes t)))
      ≡ ok t
unfolding decode_trigger_req put
decode_owned t h =
    body-read (trigger_fields true) _ t 35 data_bit Route.trigger
      (trigger_fields-Reads t t true (owner_bytes t) h (owner_fields-Reads t h))

decode_ownerless :
    (t : Trigger)
    → IsTrigger t
    → decode_trigger_req (preamble 19 data_bit Route.trigger (trigger_body t []))
      ≡ ok (record t { uid = 0; generation = 0 })
unfolding decode_trigger_req put
decode_ownerless t h =
    let u : Trigger = record t { uid = 0; generation = 0 } in
    body-read (trigger_fields false) (trigger_body t []) u 19 data_bit Route.trigger
      (trigger_fields-Reads t u false [] h (return-Reads u))

-- For an event whose fields fit their types, and a writer at its start whose slice reaches to its
-- capacity, the request is encoded without a panic, is as long as its size field announces, and
-- decodes to the same event, with the generation 0 if it has no user.
pub trigger_req-roundtrip :
    (t : Trigger) (w : Writer)
    → IsReady w
    → w.off ≡ 0
    → IsTrigger t
    → (u : Writer) × (encode_trigger_req t w ≡ some u)
      × (length (bytes u) ≡ 4 + announced (bytes u))
      × (decode_trigger_req (bytes u) ≡ ok (arrived t))
unfolding encode_trigger_req Each concat write_uint8s write_int64s write_uint64s put get
trigger_req-roundtrip t w r o h = elim (Bool-cases (eqb t.uid 0)) [
  | inl e ↦
      let (u, f, b) =
        head-Frame 19 data_bit t.seq Route.trigger
          (write_uint8s (t.event ∷ []) ∷ write_int64s big (t.cid ∷ []) ∷ [])
          ((t.event ∷ []) ∷ words big 8 (t.cid ∷ []) ∷ [])
          (put_bytes-Appends (t.event ∷ []), (put_words-Appends big 8 (t.cid ∷ []), tt)) w r o in
      (u, rw (e) f, rw (b) refl, rw (e) (ap decode_trigger_req b ∙ decode_ownerless t h))
  | inr e ↦
      let (u, f, b) =
        head-Frame 35 data_bit t.seq Route.trigger
          (write_uint8s (t.event ∷ [])
            ∷ write_int64s big (t.cid ∷ [])
            ∷ write_int64s big (t.uid ∷ [])
            ∷ write_uint64s big (t.generation ∷ [])
            ∷ [])
          ((t.event ∷ [])
            ∷ words big 8 (t.cid ∷ [])
            ∷ words big 8 (t.uid ∷ [])
            ∷ words big 8 (t.generation ∷ [])
            ∷ [])
          (
            put_bytes-Appends (t.event ∷ []),
            (
              put_words-Appends big 8 (t.cid ∷ []),
              (
                put_words-Appends big 8 (t.uid ∷ []),
                (put_words-Appends big 8 (t.generation ∷ []), tt),
              ),
            ),
          )
          w r o in
      (u, rw (e) f, rw (b) refl, rw (e) (ap decode_trigger_req b ∙ decode_owned t h))
]
