-- ===== src/Protocol/Groups.antt =====
-- internal/transporter/internal/protocol: the requests that go to more than one user (multicast.go,
-- broadcast.go, publish.go, subscribe.go, unsubscribe.go) and the responses that count them.
use Prim.Native.Nat.{bit_and}
use due.Base.{
  Bool, List, Option, [], drop, eqb, length, none, some, ℕ, ◌%◌, ◌*◌, ◌++◌, ◌+◌, ◌-◌, ◌^◌, ◌∷◌,
  string_eq,
}
use due.Buffer.Order.{big}
use due.Buffer.Reader.{
  Read, and_then, forward, new_reader, read_int64s, read_string, read_uint16, read_uint64,
  read_uint8, seek, seek_current, seek_start,
}
use due.Buffer.Writer.{Writer, bytes, write_int64s, write_string, write_uint16s, write_uint8s}
use due.Errors.{Result, ok}
use due.Protocol.{Route, data_bit, disconnect_bit, head, run, size_bytes}
use due.Protocol.Requests.{push_header}

-- `buffer.NewNocopyBuffer(writer, message)`.
abbrev pub with_message : List ℕ → Option Writer → Option (List ℕ)
with_message message none = none
with_message message (some w) = some (bytes w ++ message)

-- What `DecodeMulticastReq` returns, and `DecodeBroadcastReq` without targets.
pub record Multicast : Type 0 where
  pub seq : ℕ
  pub kind : ℕ
  pub targets : List ℕ
  pub disconnect : Bool
  pub message : List ℕ

unfoldable pub encode_multicast_req : Multicast → Writer → Option (List ℕ)
encode_multicast_req m w = with_message m.message (
    run
      (head (17 + length m.targets * 8 - size_bytes + length m.message) (push_header m.disconnect)
        Route.multicast m.seq
        (write_uint8s (m.kind ∷ [])
          ∷ write_uint16s big (length m.targets % 2 ^ 16 ∷ [])
          ∷ write_int64s big m.targets
          ∷ []))
      w)

-- `multicastReqBytes+8*count` is a sum of uint16.
abbrev pub targets_end : ℕ → ℕ
targets_end count = (17 + 8 * count) % 2 ^ 16

abbrev pub multicast_fields : List ℕ → ℕ → Read Multicast
multicast_fields frame header r0 = and_then (read_uint64 big r0) λ seq r1.
    and_then (read_uint8 r1) λ kind r2. and_then (read_uint16 big r2) λ count r3.
      and_then (read_int64s big count r3) λ targets r4. (
        ok record {
          seq = seq;
          kind = kind;
          targets = targets;
          disconnect = eqb (bit_and header disconnect_bit) disconnect_bit;
          message = drop (targets_end count) frame;
        },
        r4,
      )

-- The header, and the fields behind the route.
abbrev pub with_header {ℓ} : {A : Type ℓ} → List ℕ → (ℕ → Read A) → Result A
with_header frame fields =
    (and_then (seek (forward 4) seek_start (new_reader frame)) λ _ r0.
      and_then (read_uint8 r0)
        λ header r1. and_then (seek (forward 1) seek_current r1) λ _ r2. fields header r2).0

unfoldable pub decode_multicast_req : List ℕ → Result Multicast
decode_multicast_req frame = with_header frame (multicast_fields frame)

unfoldable pub encode_broadcast_req : Multicast → Writer → Option (List ℕ)
encode_broadcast_req m w = with_message m.message (
    run
      (head (15 - size_bytes + length m.message) (push_header m.disconnect) Route.broadcast m.seq
        (write_uint8s (m.kind ∷ []) ∷ []))
      w)

abbrev pub broadcast_fields : List ℕ → ℕ → Read Multicast
broadcast_fields frame header r0 = and_then (read_uint64 big r0) λ seq r1.
    and_then (read_uint8 r1) λ kind r2. (
      ok record {
        seq = seq;
        kind = kind;
        targets = [];
        disconnect = eqb (bit_and header disconnect_bit) disconnect_bit;
        message = drop 15 frame;
      },
      r2,
    )

unfoldable pub decode_broadcast_req : List ℕ → Result Multicast
decode_broadcast_req frame = with_header frame (broadcast_fields frame)

-- What `DecodePublishReq` returns.
pub record Publish : Type 0 where
  pub seq : ℕ
  pub channel : List ℕ
  pub disconnect : Bool
  pub message : List ℕ

unfoldable pub encode_publish_req : Publish → Writer → Option (List ℕ)
encode_publish_req p w = with_message p.message (
    run
      (head (15 + length p.channel - size_bytes + length p.message) (push_header p.disconnect)
        Route.publish p.seq
        (write_uint8s (length p.channel % 2 ^ 8 ∷ []) ∷ write_string p.channel ∷ []))
      w)

-- `publishReqBytes+channelBytes` is a sum of uint8.
abbrev pub channel_end : ℕ → ℕ
channel_end count = (15 + count) % 2 ^ 8

abbrev pub publish_fields : List ℕ → ℕ → Read Publish
publish_fields frame header r0 = and_then (read_uint64 big r0) λ seq r1.
    and_then (read_uint8 r1) λ count r2. and_then (read_string count r2) λ channel r3. (
      ok record {
        seq = seq;
        channel = channel;
        disconnect = eqb (bit_and header disconnect_bit) disconnect_bit;
        message = drop (channel_end count) frame;
      },
      r3,
    )

unfoldable pub decode_publish_req : List ℕ → Result Publish
decode_publish_req frame = with_header frame (publish_fields frame)

-- What `DecodeSubscribeReq` and `DecodeUnsubscribeReq` return.
pub record Subscribe : Type 0 where
  pub seq : ℕ
  pub kind : ℕ
  pub targets : List ℕ
  pub channel : List ℕ

-- Subscribing and unsubscribing differ in their route.
abbrev pub encode_channel_req : Route → Subscribe → Writer → Option Writer
encode_channel_req route m w =
    run
      (head (17 + length m.targets * 8 + length m.channel - size_bytes) data_bit route m.seq (
        write_uint8s (m.kind ∷ [])
        ∷ write_uint16s big (length m.targets % 2 ^ 16 ∷ [])
        ∷ write_int64s big m.targets
        ∷ write_string m.channel
        ∷ []))
      w

unfoldable pub encode_subscribe_req : Subscribe → Writer → Option Writer
encode_subscribe_req m w = encode_channel_req Route.subscribe m w

unfoldable pub encode_unsubscribe_req : Subscribe → Writer → Option Writer
encode_unsubscribe_req m w = encode_channel_req Route.unsubscribe m w

abbrev pub subscribe_fields : List ℕ → Read Subscribe
subscribe_fields frame r0 = and_then (read_uint64 big r0) λ seq r1.
    and_then (read_uint8 r1) λ kind r2. and_then (read_uint16 big r2) λ count r3.
      and_then (read_int64s big count r3) λ targets r4. (
        ok record {
          seq = seq;
          kind = kind;
          targets = targets;
          channel = drop (targets_end count) frame;
        },
        r4,
      )

unfoldable pub decode_subscribe_req : List ℕ → Result Subscribe
decode_subscribe_req frame =
    (and_then (seek (forward 6) seek_start (new_reader frame)) λ _ r. subscribe_fields frame r).0
