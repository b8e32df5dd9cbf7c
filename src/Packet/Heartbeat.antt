-- ===== src/Packet/Heartbeat.antt =====
-- packet/packer.go: how heartbeats and messages are told apart.
use Prim.Native.Nat.{bit_and}
use due.Base.{
  Bool-cases, List, [], ap, append-nil, arith, eqb, false, inl, inr, length, length-append, le→ltb,
  refl, true, ℕ, ◌++◌, ◌+◌, ◌<◌, ◌^◌, ◌∙◌, ◌≡◌, ◌≤◌,
}
use due.Buffer.Order.{length-put, put}
use due.Errors.{ok}
use due.Packet.{Message, Packer, body_size, make_heartbeat, pack_message}
use due.Packet.Unpack.{check_heartbeat, pack_heartbeat, read_header}
use due.Packet.Frame.{Fits, Fits-packed, IsPacker, IsPacker-heartbeat, length-packed, packed}
use due.Packet.RoundTrip.{header_back, read_header-frame}
use due.Protocol.{heartbeat_bit}

check_header :
    (p : Packer) (frame : List ℕ) (header : ℕ) (rest : List ℕ)
    → 5 ≤ length frame
    → read_header p.opts.byte_order frame ≡ ok (header, rest)
    → check_heartbeat p frame ≡ ok (eqb (bit_and header heartbeat_bit) heartbeat_bit)
unfolding check_heartbeat
check_header p frame header rest l h = rw (le→ltb (length frame) 5 l, h) refl

check-beat :
    (p : Packer) (size : ℕ) (rest : List ℕ)
    → size < 256 ^ 4
    → size ≡ 1 + length rest
    → check_heartbeat p (put p.opts.byte_order 4 size ++ (put p.opts.byte_order 1 128 ++ rest))
      ≡ ok true
check-beat p size rest h e =
    let o = p.opts.byte_order in
    let l = length-put o 4 size in
    let l' = length-put o 1 128 in
    check_header p _ 128 rest
      (omega (
        arith,
        l,
        l',
        length-append (put o 4 size) (put o 1 128 ++ rest),
        length-append (put o 1 128) rest,
      ))
      (read_header-frame o size 128 rest h (omega arith) e)

heartbeat_bytes :
    (p : Packer) (now : ℕ)
    → IsPacker p
    → (size : ℕ) × (rest : List ℕ) × (size < 256 ^ 4)
      × (size ≡ 1 + length rest)
      × (pack_heartbeat p now
          ≡ put p.opts.byte_order 4 size ++ (put p.opts.byte_order 1 128 ++ rest))
unfolding pack_heartbeat make_heartbeat
heartbeat_bytes p now h =
    let o = p.opts.byte_order in
    elim (Bool-cases p.opts.heartbeat_time) [
      | inl e ↦ (9, put o 8 now, omega arith, omega (arith, length-put o 8 now), ground (arith, e))
      | inr e ↦ (
        1,
        [],
        omega arith,
        omega arith,
        ground (arith, e, IsPacker-heartbeat p h, append-nil (put o 1 128)),
      )
    ]

beats : (p : Packer) (now : ℕ) → IsPacker p → check_heartbeat p (pack_heartbeat p now) ≡ ok true
beats p now h =
    let (size, rest, a, b, e) = heartbeat_bytes p now h in
    ap (check_heartbeat p) e ∙ check-beat p size rest a b

-- For a packer that `NewPacker` accepts, `CheckHeartbeat` says yes to what `PackHeartbeat` makes,
-- with the time or without it, and no to the frame of a message that fits and whose size is a
-- number of 32 bits.
pub check_heartbeat-Tells :
    (p : Packer) (now : ℕ) (m : Message)
    → IsPacker p
    → Fits p m
    → body_size p m < 2 ^ 32
    → (check_heartbeat p (pack_heartbeat p now) ≡ ok true)
      × (frame : List ℕ) × (pack_message p m ≡ ok frame)
      × (check_heartbeat p frame ≡ ok false)
check_heartbeat-Tells p now m h f l = (
  beats p now h,
  packed p m,
  Fits-packed p m h f,
  check_header p (packed p m) 0 _ (omega (arith, length-packed p m h)) (header_back p m h l),
)
