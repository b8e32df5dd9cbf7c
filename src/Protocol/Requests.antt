-- ===== src/Protocol/Requests.antt =====
-- internal/transporter/internal/protocol/{bind,unbind,push}.go: the frames of the session calls that
-- name a connection, a user or a token. A message packet is the list of its bytes.
use Prim.Native.Nat.{bit_and}
use due.Base.{
  Bool, List, Option, [], drop, eqb, false, if◌then◌else◌, length, none, some, true, ℕ, ◌++◌, ◌+◌,
  ◌-◌, ◌∷◌,
}
use due.Buffer.Order.{big}
use due.Buffer.Writer.{Writer, bytes, write_int64s, write_uint16s, write_uint64s, write_uint8s}
use due.Buffer.Reader.{
  Read, and_then, back, forward, new_reader, read_int64, read_uint16, read_uint64, read_uint8, seek,
  seek_current, seek_end, seek_start,
}
use due.Protocol.{Route, data_bit, disconnect_bit, head, run, size_bytes}
use due.Errors.{Result, err, invalid_message, ok}

-- `EncodeBindReq`.
unfoldable pub encode_bind_req : ℕ → ℕ → ℕ → Writer → Option Writer
unfolding run
encode_bind_req seq cid uid =
    run (head (30 - size_bytes) data_bit Route.bind seq (write_int64s big (cid ∷ uid ∷ []) ∷ []))

abbrev pub bind_req_fields : Read (ℕ × ℕ × ℕ)
bind_req_fields r0 = and_then (read_uint64 big r0) λ seq r1.
    and_then (read_int64 big r1)
      λ cid r2. and_then (read_int64 big r2) λ uid r3. (ok (seq, cid, uid), r3)

unfoldable pub decode_bind_req : List ℕ → Result (ℕ × ℕ × ℕ)
decode_bind_req frame =
    if eqb (length frame) 30
    then (and_then (seek (forward 6) seek_start (new_reader frame)) λ _ r. bind_req_fields r).0
    else err invalid_message

-- `EncodeBindRes`, `EncodeUnbindRes` and `EncodePushRes`, by the route.
unfoldable pub encode_res : Route → ℕ → ℕ → Writer → Option Writer
unfolding run
encode_res route seq code =
    run (head (16 - size_bytes) data_bit route seq (write_uint16s big (code ∷ []) ∷ []))

unfoldable pub decode_res : List ℕ → Result ℕ
unfolding seek read_uint16
decode_res frame =
    if eqb (length frame) 16
    then (and_then (seek (back 2) seek_end (new_reader frame))
        λ _ r0. and_then (read_uint16 big r0) λ code r1. (ok code, r1)).0
    else err invalid_message

unfoldable pub encode_unbind_req : ℕ → ℕ → Writer → Option Writer
unfolding run
encode_unbind_req seq uid =
    run (head (22 - size_bytes) data_bit Route.unbind seq (write_int64s big (uid ∷ []) ∷ []))

abbrev pub unbind_req_fields : Read (ℕ × ℕ)
unbind_req_fields r0 =
    and_then (read_uint64 big r0)
      λ seq r1. and_then (read_int64 big r1) λ uid r2. (ok (seq, uid), r2)

unfoldable pub decode_unbind_req : List ℕ → Result (ℕ × ℕ)
decode_unbind_req frame =
    if eqb (length frame) 22
    then (and_then (seek (forward 6) seek_start (new_reader frame)) λ _ r. unbind_req_fields r).0
    else err invalid_message

-- What `DecodePushReq` returns.
pub record Push : Type 0 where
  pub seq : ℕ
  pub kind : ℕ
  pub target : ℕ
  pub disconnect : Bool
  pub uid : ℕ
  pub generation : ℕ
  pub message : List ℕ

abbrev pub push_header : Bool → ℕ
push_header true = 64
push_header false = data_bit

unfoldable pub encode_push_req : Push → Writer → Option (List ℕ)
unfolding run
encode_push_req p w =
    elim (run
      (head (39 - size_bytes + length p.message) (push_header p.disconnect) Route.push p.seq (
        write_uint8s (p.kind ∷ [])
        ∷ write_int64s big (p.target ∷ [])
        ∷ write_int64s big (p.uid ∷ [])
        ∷ write_uint64s big (p.generation ∷ [])
        ∷ []))
      w) [ none ↦ none | some w' ↦ some (bytes w' ++ p.message) ]

abbrev pub push_req_fields : List ℕ → ℕ → Read Push
push_req_fields frame header r2 = and_then (read_uint64 big r2) λ seq r3.
    and_then (read_uint8 r3) λ kind r4. and_then (read_int64 big r4) λ target r5.
      and_then (read_int64 big r5) λ uid r6. and_then (read_uint64 big r6) λ generation r7. (
        ok record {
          seq = seq;
          kind = kind;
          target = target;
          disconnect = eqb (bit_and header disconnect_bit) disconnect_bit;
          uid = uid;
          generation = generation;
          message = drop 39 frame;
        },
        r7,
      )

unfoldable pub decode_push_req : List ℕ → Result Push
decode_push_req frame =
    (and_then (seek (forward 4) seek_start (new_reader frame)) λ _ r0.
      and_then (read_uint8 r0) λ header r1.
        and_then (seek (forward 1) seek_current r1) λ _ r2. push_req_fields frame header r2).0
