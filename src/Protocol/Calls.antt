-- ===== src/Protocol/Calls.antt =====
-- internal/transporter/internal/protocol/disconnect.go and trigger.go: the requests whose last fields
-- may be missing.
use due.Base.{Bool, List, Option, [], eqb, if◌then◌else◌, length, ℕ, ◌-◌, ◌||◌, ◌∷◌}
use due.Buffer.Order.{big}
use due.Buffer.Reader.{
  Read, and_then, forward, new_reader, read_bool, read_int64, read_uint64, read_uint8, seek,
  seek_start,
}
use due.Buffer.Writer.{Writer, write_bools, write_int64s, write_uint64s, write_uint8s}
use due.Errors.{Result, err, invalid_message, ok, ◌>>=◌}
use due.Protocol.{Route, data_bit, head, run, size_bytes}
use due.Session.{Token, zero_token}

-- What `DecodeDisconnectReq` returns.
pub record Disconnect : Type 0 where
  pub seq : ℕ
  pub kind : ℕ
  pub target : ℕ
  pub force : Bool

abbrev pub disconnect_ops :
    Disconnect → List (Writer → Option Writer) → List (Writer → Option Writer)
disconnect_ops d rest =
    write_uint8s (d.kind ∷ [])
    ∷ write_int64s big (d.target ∷ [])
    ∷ write_bools (d.force ∷ [])
    ∷ rest

unfoldable pub encode_disconnect_req : Disconnect → Writer → Option Writer
encode_disconnect_req d =
    run (head (24 - size_bytes) data_bit Route.disconnect d.seq (disconnect_ops d []))

unfoldable pub encode_disconnect_current_req : Disconnect → Token → Writer → Option Writer
encode_disconnect_current_req d token = run (
    head (40 - size_bytes) data_bit Route.disconnect d.seq (
      disconnect_ops d
        (write_int64s big (token.uid ∷ []) ∷ write_uint64s big (token.generation ∷ []) ∷ [])))

abbrev pub disconnect_fields {ℓ} : {A : Type ℓ} → (Disconnect → Read A) → Read A
disconnect_fields next r0 = and_then (read_uint64 big r0) λ seq r1.
    and_then (read_uint8 r1) λ kind r2. and_then (read_int64 big r2) λ target r3.
      and_then (read_bool r3)
        λ force r4. next (record { seq = seq; kind = kind; target = target; force = force }) r4

unfoldable pub decode_disconnect_req : List ℕ → Result Disconnect
decode_disconnect_req frame =
    if eqb (length frame) 24
    then (and_then (seek (forward 6) seek_start (new_reader frame))
        λ _ r. disconnect_fields (λ d r'. (ok d, r')) r).0
    else err invalid_message

abbrev pub token_fields : Disconnect → Read (Disconnect × Token)
token_fields d r0 = and_then (read_int64 big r0) λ uid r1.
    and_then (read_uint64 big r1)
      λ generation r2. (ok (d, record { uid = uid; generation = generation }), r2)

unfoldable pub decode_disconnect_req_with_token : List ℕ → Result (Disconnect × Token)
decode_disconnect_req_with_token frame =
    if eqb (length frame) 24
    then decode_disconnect_req frame >>= (λ d. ok (d, zero_token))
    else if eqb (length frame) 40
    then (and_then (seek (forward 6) seek_start (new_reader frame))
        λ _ r. disconnect_fields token_fields r).0
    else err invalid_message

-- What `DecodeTriggerReq` returns.
pub record Trigger : Type 0 where
  pub seq : ℕ
  pub event : ℕ
  pub cid : ℕ
  pub uid : ℕ
  pub generation : ℕ

unfoldable pub encode_trigger_req : Trigger → Writer → Option Writer
encode_trigger_req t = run (
    head (if eqb t.uid 0 then 39 - size_bytes - 16 else 39 - size_bytes) data_bit Route.trigger
      t.seq
      (write_uint8s (t.event ∷ [])
        ∷ write_int64s big (t.cid ∷ [])
        ∷ (if eqb t.uid 0
            then []
            else write_int64s big (t.uid ∷ []) ∷ write_uint64s big (t.generation ∷ []) ∷ [])))

abbrev pub owner_fields : Bool → ℕ → ℕ → ℕ → Read Trigger
owner_fields full seq event cid r0 =
    if full
    then and_then (read_int64 big r0) (λ uid r1. and_then (read_uint64 big r1) λ generation r2.
      (ok record { seq = seq; event = event; cid = cid; uid = uid; generation = generation }, r2))
    else (ok record { seq = seq; event = event; cid = cid; uid = 0; generation = 0 }, r0)

abbrev pub trigger_fields : Bool → Read Trigger
trigger_fields full r0 = and_then (read_uint64 big r0) λ seq r1.
    and_then (read_uint8 r1)
      λ event r2. and_then (read_int64 big r2) λ cid r3. owner_fields full seq event cid r3

unfoldable pub decode_trigger_req : List ℕ → Result Trigger
decode_trigger_req frame =
    if eqb (length frame) 39 || eqb (length frame) 23
    then (and_then (seek (forward 6) seek_start (new_reader frame))
        λ _ r. trigger_fields (eqb (length frame) 39) r).0
    else err invalid_message
