-- ===== src/Packet/Tests.antt =====
-- packet/packer.go: concrete runs.
use due.Base.{List, [], arith, false, inr, refl, some, true, ℕ, ◌++◌, ◌∷◌, ◌≡◌}
use due.Base.Ints.{negsuc, pattern_of, pos}
use due.Buffer.Order.{big, put}
use due.Buffer.Writer.{new_writer_with_capacity}
use due.Buffer.Writer.Appends.{IsReady}
use due.Errors.{Error, err, ok, route_overflow}
use due.Packet.{
  Message, Packer, check_message, is_longer, make_heartbeat, new_packer, overflows, pack_buffer,
  pack_message, signed_bytes,
}
use due.Packet.Unpack.{check_heartbeat, pack_heartbeat, unpack_message}
use due.Packet.Frame.{Fits, IsPacker}
use due.Packet.Outcome.{Outcome, pack_message-Outcome}
use due.Packet.RoundTrip.{carried, unpack-pack}
use due.Packet.Buffers.{pack_buffer-pack_message}
use due.Packet.Heartbeat.{check_heartbeat-Tells}
use due.Packet.Stream.{read_message, read_message-Frame}

-- The default options.
abbrev usual : Packer
usual = record {
  opts = record {
    byte_order = big;
    route_bytes = 2;
    seq_bytes = 2;
    buffer_bytes = pos 5000;
    heartbeat_time = false;
  };
  heartbeat = 0 ∷ 0 ∷ 0 ∷ 1 ∷ 128 ∷ [];
}

usual-IsPacker : IsPacker usual
unfolding new_packer make_heartbeat put
usual-IsPacker = refl

abbrev greeting : Message
greeting = record { seq = negsuc 0; route = pos 300; buffer = 7 ∷ 8 ∷ [] }

greeting-Fits : Fits usual greeting
greeting-Fits = record {
  route_fits = omega arith;
  seq_fits = inr (omega arith);
  buffer_fits = omega arith;
}

abbrev greeting_frame : List ℕ
greeting_frame = 0 ∷ 0 ∷ 0 ∷ 7 ∷ 0 ∷ 1 ∷ 44 ∷ 255 ∷ 255 ∷ 7 ∷ 8 ∷ []

pack_greeting : pack_message usual greeting ≡ ok greeting_frame
unfolding pack_message check_message overflows is_longer signed_bytes put pattern_of
pack_greeting = refl

far_route : pack_message usual (record greeting { route = pos 32768 }) ≡ err route_overflow
unfolding pack_message check_message overflows
far_route = refl

unpack-pack_example :
    (frame : List ℕ) × (pack_message usual greeting ≡ ok frame)
    × (unpack_message usual frame ≡ ok (record greeting { seq = carried 2 (negsuc 0) }))
unpack-pack_example = unpack-pack usual greeting usual-IsPacker greeting-Fits (omega arith)

pack_message-Outcome_example : Outcome usual greeting
pack_message-Outcome_example = pack_message-Outcome usual greeting usual-IsPacker

pack_buffer-pack_message_example :
    pack_buffer usual greeting (new_writer_with_capacity 9) ≡ some (pack_message usual greeting)
unfolding new_writer_with_capacity IsReady
pack_buffer-pack_message_example =
    pack_buffer-pack_message usual greeting (new_writer_with_capacity 9) usual-IsPacker
      (omega arith, omega arith) refl

check_heartbeat-Tells_example :
    (check_heartbeat usual (pack_heartbeat usual 12) ≡ ok true)
    × (frame : List ℕ) × (pack_message usual greeting ≡ ok frame)
    × (check_heartbeat usual frame ≡ ok false)
check_heartbeat-Tells_example =
    check_heartbeat-Tells usual 12 greeting usual-IsPacker greeting-Fits (omega arith)

read_message-Frame_example :
    (read_message usual (greeting_frame ++ (0 ∷ 0 ∷ [])) ≡ some (ok greeting_frame, 0 ∷ 0 ∷ []))
    × (e : Error) × (read_message usual (0 ∷ 0 ∷ 0 ∷ 7 ∷ 0 ∷ []) ≡ some (err e, []))
read_message-Frame_example =
    read_message-Frame usual greeting greeting_frame (0 ∷ 0 ∷ 0 ∷ 7 ∷ 0 ∷ [])
      (1 ∷ 44 ∷ 255 ∷ 255 ∷ 7 ∷ 8 ∷ []) (0 ∷ 0 ∷ []) usual-IsPacker greeting-Fits (omega arith)
      pack_greeting refl (omega arith)
