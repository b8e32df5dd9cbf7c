-- ===== src/Protocol/Tests.antt =====
-- Runs of internal/transporter/internal/protocol.
use due.Base.{
  List, [], arith, false, length, refl, some, true, ℕ, ◌++◌, ◌+◌, ◌/◌, ◌^◌, ◌↔◌, ◌∷◌, ◌≡◌,
  string_eq,
}
use due.Buffer.Writer.{Writer, bytes, new_writer_with_capacity}
use due.Buffer.Writer.Appends.{IsReady}
use due.Protocol.{Route, head, parse_buffer, run}
use due.Protocol.Requests.{Push, decode_push_req, encode_push_req}
use due.Errors.{err, invalid_message, ok}
use due.Protocol.PushTrip.{IsPush, push_req-roundtrip}
use due.Protocol.Parse.{parse_head}
use due.Protocol.Groups.{
  Multicast, Publish, decode_multicast_req, decode_publish_req, encode_multicast_req,
  encode_publish_req,
}
use due.Protocol.PublishTrip.{IsPublish, publish_req-roundtrip}
use due.Protocol.MulticastTrip.{IsMulticast, multicast_req-roundtrip}
use due.Protocol.Totals.{
  announced, decode_total_res, encode_publish_res, encode_total_res, has_total, total_res-announced,
}
use due.Protocol.Frames.{Each}
use due.Protocol.Deliver.{Deliver}
use due.Session.{Token, zero_token}
use due.Protocol.Calls.{
  Disconnect, Trigger, decode_disconnect_req, decode_disconnect_req_with_token, decode_trigger_req,
  encode_disconnect_current_req, encode_disconnect_req, encode_trigger_req,
}
use due.Protocol.DisconnectTrip.{IsDisconnect, disconnect_req-roundtrip}
use due.Protocol.TriggerTrip.{IsTrigger, arrived, trigger_req-roundtrip}
use due.Protocol.Counts.{carried, decode_stat_res, encode_stat_res, stat_res-decoded}

abbrev pooled : Writer
pooled = new_writer_with_capacity 4

pooled-IsReady : IsReady pooled
unfolding IsReady new_writer_with_capacity
pooled-IsReady = (refl, omega arith)

at_start : pooled.off ≡ 0
unfolding new_writer_with_capacity
at_start = refl

parse_head_example :
    (w : Writer) × (run (head 10 64 Route.push 9 []) pooled ≡ some w)
    × (parse_buffer (bytes w ++ (1 ∷ [])) ≡ some (false, 8, 9))
unfolding Each
parse_head_example =
    parse_head 10 64 9 Route.push [] [] (1 ∷ []) pooled tt pooled-IsReady at_start refl
      (omega arith)

abbrev request : Push
request = record {
  seq = 9;
  kind = 2;
  target = 5;
  disconnect = true;
  uid = 5;
  generation = 3;
  message = 1 ∷ 2 ∷ [];
}

push_req-roundtrip_example :
    (frame : List ℕ) × (encode_push_req request pooled ≡ some frame)
    × (decode_push_req frame ≡ ok request)
unfolding IsPush
push_req-roundtrip_example =
    push_req-roundtrip request pooled pooled-IsReady at_start
      (omega arith, omega arith, omega arith, omega arith, omega arith)

abbrev news : Publish
news = record { seq = 9; channel = 110 ∷ 101 ∷ []; disconnect = false; message = 1 ∷ [] }

publish_req-roundtrip_example :
    (frame : List ℕ) × (encode_publish_req news pooled ≡ some frame)
    × (decode_publish_req frame ≡ ok news)
unfolding IsPublish
publish_req-roundtrip_example =
    publish_req-roundtrip news pooled pooled-IsReady at_start (omega arith, omega arith)

abbrev invitation : Multicast
invitation = record {
  seq = 9;
  kind = 2;
  targets = 5 ∷ 6 ∷ [];
  disconnect = true;
  message = 1 ∷ 2 ∷ [];
}

multicast_req-roundtrip_example :
    (frame : List ℕ) × (encode_multicast_req invitation pooled ≡ some frame)
    × (decode_multicast_req frame ≡ ok invitation)
unfolding IsMulticast
multicast_req-roundtrip_example =
    multicast_req-roundtrip invitation pooled pooled-IsReady at_start
      (omega arith, omega arith, (omega arith, (omega arith, tt)), omega arith)

-- Nobody was reached.
total_res-announced_example :
    (u v : Writer) × (encode_total_res Route.multicast 9 0 (0 ∷ []) pooled ≡ some u)
    × (encode_publish_res 9 0 (0 ∷ []) pooled ≡ some v)
    × (length (bytes u) ≡ 4 + announced (bytes u))
    × ((length (bytes v) ≡ 4 + announced (bytes v)) ↔ (has_total 0 (0 ∷ []) ≡ true))
total_res-announced_example =
    total_res-announced Route.multicast 9 0 (0 ∷ []) pooled pooled-IsReady at_start

stat_res-decoded_example :
    (u v : Writer) × (encode_total_res Route.multicast 9 0 (70000 ∷ []) pooled ≡ some u)
    × (decode_total_res (bytes u) ≡ ok (0, carried 0 (70000 ∷ [])))
    × (encode_stat_res 9 0 (70000 ∷ []) pooled ≡ some v)
    × (decode_stat_res (bytes v) ≡ ok (0, carried 0 (70000 ∷ []) / 2 ^ 16))
stat_res-decoded_example =
    stat_res-decoded Route.multicast 9 0 (70000 ∷ []) pooled pooled-IsReady at_start (omega arith)
      (omega arith)

abbrev farewell : Disconnect
farewell = record { seq = 9; kind = 2; target = 5; force = true }

abbrev held_token : Token
held_token = record { uid = 5; generation = 3 }

disconnect_req-roundtrip_example :
    (u v : Writer) × (encode_disconnect_current_req farewell held_token pooled ≡ some u)
    × (decode_disconnect_req_with_token (bytes u) ≡ ok (farewell, held_token))
    × (decode_disconnect_req (bytes u) ≡ err invalid_message)
    × (encode_disconnect_req farewell pooled ≡ some v)
    × (decode_disconnect_req_with_token (bytes v) ≡ ok (farewell, zero_token))
    × (decode_disconnect_req (bytes v) ≡ ok farewell)
unfolding IsDisconnect
disconnect_req-roundtrip_example =
    disconnect_req-roundtrip farewell held_token pooled pooled-IsReady at_start
      (omega arith, omega arith, omega arith) (omega arith) (omega arith)

-- A connection without a user.
abbrev opened : Trigger
opened = record { seq = 9; event = 1; cid = 7; uid = 0; generation = 4 }

trigger_req-roundtrip_example :
    (u : Writer) × (encode_trigger_req opened pooled ≡ some u)
    × (length (bytes u) ≡ 4 + announced (bytes u))
    × (decode_trigger_req (bytes u) ≡ ok (arrived opened))
unfolding IsTrigger
trigger_req-roundtrip_example =
    trigger_req-roundtrip opened pooled pooled-IsReady at_start
      (omega arith, omega arith, omega arith, omega arith, omega arith)

-- With a trace parent and no trace state.
abbrev delivered_hello : Deliver
delivered_hello = record {
  seq = 9;
  cid = 7;
  uid = 5;
  generation = 3;
  metadata = record {
    deadline = some (record { milliseconds = 1000; nanoseconds = 7 });
    correlation_id = 99 ∷ [];
    trace_parent = 48 ∷ 48 ∷ [];
    trace_state = [];
  };
  message = 1 ∷ 2 ∷ [];
}
