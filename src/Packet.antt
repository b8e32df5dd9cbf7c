-- ===== src/Packet.antt =====
-- packet/packer.go, options.go and message.go: the frames between clients and gates. A byte is a
-- number, and `binary.Write` and `binary.Read` of encoding/binary are `put` and `get`.
pub mod Unpack
pub mod Frame
pub mod RoundTrip
pub mod Outcome
pub mod Buffers
pub mod Heartbeat
pub mod Stream
pub mod Tests
use due.Base.{
  Bool, List, Option, [], eqb, false, if◌then◌else◌, length, ltb, none, not, some, suc, true, ℕ,
  ◌%◌, ◌&&◌, ◌*◌, ◌++◌, ◌+◌, ◌-◌, ◌^◌, ◌||◌, ◌∷◌,
}
use due.Base.Ints.{negsuc, pattern_of, pos, ℤ}
use due.Buffer.Order.{ByteOrder, put}
use due.Buffer.Writer.{Writer, bytes, write_int16s, write_int32s, write_int8s}
use due.Errors.{Error, Result, err, message_too_large, ok, route_overflow, seq_overflow}
use due.Protocol.{data_bit, heartbeat_bit, run}

abbrev pub default_size_bytes : ℕ
default_size_bytes = 4

abbrev pub default_header_bytes : ℕ
default_header_bytes = 1

abbrev pub default_heartbeat_time_bytes : ℕ
default_heartbeat_time_bytes = 8

pub record Options : Type 0 where
  pub byte_order : ByteOrder
  pub route_bytes : ℕ
  pub seq_bytes : ℕ
  pub buffer_bytes : ℤ
  pub heartbeat_time : Bool

pub record Packer : Type 0 where
  pub opts : Options
  pub heartbeat : List ℕ

pub record Message : Type 0 where
  pub seq : ℤ
  pub route : ℤ
  pub buffer : List ℕ

unfoldable pub make_heartbeat : ByteOrder → List ℕ
make_heartbeat o = put o 4 default_header_bytes ++ put o 1 heartbeat_bit

-- Whether `NewPacker` accepts the numbers of bytes.
abbrev pub is_route_bytes : ℕ → Bool
is_route_bytes n = eqb n 1 || eqb n 2 || eqb n 4

abbrev pub is_seq_bytes : ℕ → Bool
is_seq_bytes n = eqb n 0 || eqb n 1 || eqb n 2 || eqb n 4

abbrev pub is_negative : ℤ → Bool
is_negative (pos n) = false
is_negative (negsuc n) = true

-- `NewPacker`, with the options applied; `none` is `log.Fatalf`.
unfoldable pub new_packer : Options → Option Packer
new_packer o =
    if not (is_route_bytes o.route_bytes)
    then none
    else if not (is_seq_bytes o.seq_bytes)
    then none
    else if is_negative o.buffer_bytes
    then none
    else some (record { opts = o; heartbeat = make_heartbeat o.byte_order })

-- `z > int32(1<<(8*n-1)-1) || z < int32(-1<<(8*n-1))`, of an int32 `z` and from one byte on, as
-- `NewPacker` sees to. Beyond four bytes the shifts leave 0, and the bounds are -1 and 0.
unfoldable pub overflows : ℕ → ℤ → Bool
overflows n (pos m) = ltb 4 n || ltb (2 ^ (8 * n - 1) - 1) m
overflows n (negsuc m) = ltb 4 n || ltb (2 ^ (8 * n - 1)) (suc m)

-- `len(message.Buffer) > p.opts.bufferBytes`.
unfoldable pub is_longer : List ℕ → ℤ → Bool
is_longer bs (pos n) = ltb n (length bs)
is_longer bs (negsuc n) = true

-- The tests that `PackMessage` and `PackBuffer` start with.
unfoldable pub check_message : Packer → Message → Option Error
check_message p m =
    if overflows p.opts.route_bytes m.route
    then some route_overflow
    else if ltb 0 p.opts.seq_bytes && overflows p.opts.seq_bytes m.seq
    then some seq_overflow
    else if is_longer m.buffer p.opts.buffer_bytes
    then some message_too_large
    else none

-- `switch p.opts.routeBytes` and `switch p.opts.seqBytes` of `PackMessage`.
unfoldable pub signed_bytes : ByteOrder → ℕ → ℤ → List ℕ
signed_bytes o n z =
    if eqb n 1
    then put o 1 (pattern_of 1 z)
    else if eqb n 2
    then put o 2 (pattern_of 2 z)
    else if eqb n 4
    then put o 4 (pattern_of 4 z)
    else []

abbrev pub body_size : Packer → Message → ℕ
body_size p m = default_header_bytes + p.opts.route_bytes + p.opts.seq_bytes + length m.buffer

unfoldable pub pack_message : Packer → Message → Result (List ℕ)
pack_message p m = elim (check_message p m) [
  | some e ↦ err e
  | none ↦
      let o = p.opts.byte_order in
      ok (
        put o 4 (body_size p m % 2 ^ 32)
        ++ (put o 1 data_bit
            ++ (signed_bytes o p.opts.route_bytes m.route
                ++ (signed_bytes o p.opts.seq_bytes m.seq ++ m.buffer))))
]

-- The same switches of `PackBuffer`.
unfoldable pub write_signed : ByteOrder → ℕ → ℤ → Writer → Option Writer
write_signed o n z =
    if eqb n 1
    then write_int8s (pattern_of 1 z ∷ [])
    else if eqb n 2
    then write_int16s o (pattern_of 2 z ∷ [])
    else if eqb n 4
    then write_int32s o (pattern_of 4 z ∷ [])
    else λ w. some w

-- `PackBuffer`: the bytes of the writer that `MallocWriter` answered, and behind them the message's
-- own. `none` is a panic.
unfoldable pub pack_buffer : Packer → Message → Writer → Option (Result (List ℕ))
pack_buffer p m w = elim (check_message p m) [
  | some e ↦ some (err e)
  | none ↦
      let o = p.opts.byte_order in
      elim (run
        (write_int32s o (body_size p m % 2 ^ 32 ∷ [])
          ∷ write_int8s (data_bit ∷ [])
          ∷ write_signed o p.opts.route_bytes m.route
          ∷ write_signed o p.opts.seq_bytes m.seq
          ∷ [])
        w) [ none ↦ none | some w' ↦ some (ok (bytes w' ++ m.buffer)) ]
]
