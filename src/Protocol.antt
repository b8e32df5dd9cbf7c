-- ===== src/Protocol.antt =====
-- internal/transporter/internal/protocol: the frames that gate, node and their clients exchange,
-- written by a pooled writer and read back from the bytes. `none` is a panic.
pub mod Frames
pub mod Requests
pub mod RoundTrip
pub mod PushTrip
pub mod Parse
pub mod Groups
pub mod Totals
pub mod Counts
pub mod Calls
pub mod Deliver
pub mod DisconnectTrip
pub mod TriggerTrip
pub mod PublishTrip
pub mod MulticastTrip
pub mod Tests
use Prim.Native.Nat.{bit_and}
use due.Base.{
  Bool, List, Option, [], drop, eqb, false, if◌then◌else◌, length, ltb, none, some, take, true, ℕ,
  ◌∷◌,
}
use due.Buffer.Order.{big, get}
use due.Buffer.Writer.{Writer, write_uint32s, write_uint64s, write_uint8s}
use due.Buffer.Order

abbrev pub size_bytes : ℕ
size_bytes = 4

abbrev pub data_bit : ℕ
data_bit = 0

abbrev pub heartbeat_bit : ℕ
heartbeat_bit = 128

abbrev pub disconnect_bit : ℕ
disconnect_bit = 64

-- internal/transporter/internal/route/route.go.
pub data Route : Type 0 where
  handshake bind unbind get_ip stat is_online disconnect push multicast broadcast publish : Route
  subscribe unsubscribe trigger deliver get_state set_state : Route

abbrev pub number : Route → ℕ
number handshake = 1
number bind = 2
number unbind = 3
number get_ip = 4
number stat = 5
number is_online = 6
number disconnect = 7
number push = 8
number multicast = 9
number broadcast = 10
number publish = 11
number subscribe = 12
number unsubscribe = 13
number trigger = 14
number deliver = 15
number get_state = 16
number set_state = 17

-- The calls of a writer's operations, in their order.
unfoldable pub run : List (Writer → Option Writer) → Writer → Option Writer
run [] w = some w
run (m ∷ ms) w = elim (m w) [ none ↦ none | some w' ↦ run ms w' ]

-- The header of every request and response: size, header, route and sequence number.
abbrev pub head : ℕ → ℕ → Route → ℕ → List (Writer → Option Writer) → List (Writer → Option Writer)
head size header route seq rest =
    write_uint32s big (size ∷ [])
    ∷ write_uint8s (header ∷ [])
    ∷ write_uint8s (number route ∷ [])
    ∷ write_uint64s big (seq ∷ [])
    ∷ rest

-- `ParseBuffer`: whether the frame is a heartbeat, and its route and sequence number.
unfoldable pub parse_buffer : List ℕ → Option (Bool × ℕ × ℕ)
parse_buffer buf = elim (drop 4 buf) [
  | [] ↦ none
  | header ∷ rest ↦
      if eqb (bit_and header heartbeat_bit) heartbeat_bit then some (true, 0, 0) else elim rest [
        | [] ↦ none
        | route ∷ tail ↦
            if ltb (length tail) 8 then none else some (false, route, get big (take 8 tail))
      ]
]
