-- ===== src/Packet/Unpack.antt =====
-- packet/packer.go: taking frames apart, and the heartbeats.
use Prim.Native.Nat.{bit_and}
use due.Base.{Bool, List, drop, eqb, if◌then◌else◌, length, ltb, not, take, ℕ, ◌++◌, ◌+◌, ◌-◌, ◌||◌}
use due.Base.Ints.{pos, signed, ℤ}
use due.Buffer.Order.{ByteOrder, get, put}
use due.Errors.{Result, err, invalid_message, ok, unexpected_eof, ◌>>=◌}
use due.Protocol.{data_bit, heartbeat_bit}
use due.Packet.{
  Message, Packer, default_header_bytes, default_heartbeat_time_bytes, default_size_bytes,
}

-- `binary.Read` of a word of `k` bytes from what is left of the frame.
unfoldable pub binary_read : ByteOrder → ℕ → List ℕ → Result (ℕ × List ℕ)
binary_read o k bs =
    if ltb (length bs) k then err unexpected_eof else ok (get o (take k bs), drop k bs)

-- The switches of `UnpackMessage`; without a case the field stays 0.
unfoldable pub read_signed : ByteOrder → ℕ → List ℕ → Result (ℤ × List ℕ)
read_signed o n bs =
    if eqb n 1 || eqb n 2 || eqb n 4
    then (binary_read o n bs >>= λ (w, rest). ok (signed n w, rest))
    else ok (pos 0, bs)

-- The size and the header of a frame, as `UnpackMessage` and `CheckHeartbeat` read them.
unfoldable pub read_header : ByteOrder → List ℕ → Result (ℕ × List ℕ)
read_header o frame = binary_read o 4 frame >>= λ (size, rest).
    if eqb (length frame - default_size_bytes) size
    then binary_read o 1 rest
    else err invalid_message

unfoldable pub unpack_message : Packer → List ℕ → Result Message
unpack_message p frame =
    let n = default_size_bytes + default_header_bytes + p.opts.route_bytes + p.opts.seq_bytes in
    if ltb (length frame) n
    then err invalid_message
    else read_header p.opts.byte_order frame >>= λ (header, rest).
        if not (eqb (bit_and header data_bit) data_bit)
        then err invalid_message
        else read_signed p.opts.byte_order p.opts.route_bytes rest >>= λ (route, rest').
            read_signed p.opts.byte_order p.opts.seq_bytes rest' >>= λ (seq, rest'').
            ok (record { seq = seq; route = route; buffer = drop n frame })

-- `PackHeartbeat`, with the bits of `time.Now().UnixNano()`.
unfoldable pub pack_heartbeat : Packer → ℕ → List ℕ
pack_heartbeat p now =
    if p.opts.heartbeat_time
    then put p.opts.byte_order 4 (default_header_bytes + default_heartbeat_time_bytes)
      ++ (put p.opts.byte_order 1 heartbeat_bit ++ put p.opts.byte_order 8 now)
    else p.heartbeat

unfoldable pub check_heartbeat : Packer → List ℕ → Result Bool
check_heartbeat p frame =
    if ltb (length frame) (default_size_bytes + default_header_bytes)
    then err invalid_message
    else read_header p.opts.byte_order frame >>= λ (header, rest).
        ok (eqb (bit_and header heartbeat_bit) heartbeat_bit)
