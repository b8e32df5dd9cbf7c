-- ===== src/Protocol/Deliver/RoundTrip.antt =====
-- internal/transporter/internal/protocol/deliver.go: what is decoded from an encoded delivery.
use due.Base.{List, [], if◌then◌else◌, ℕ, ◌++◌}
use due.Buffer.Reader.{Reader}
use due.Buffer.Reader.Reads.{Reads}
use due.Buffer.Writer.{Writer}
use due.Buffer.Writer.Appends.{Appends}
use due.Protocol.{Route}
use due.Protocol.RoundTrip.{preamble}
use due.Protocol.Deliver.{Deliver, deadline_of, has_trace_context, unix_milli}
use due.Protocol.Deliver.Fields.{deliver_body}

-- The frame of a delivery, with a trace or without.
abbrev delivery : Deliver → ℕ → ℕ → List ℕ → List ℕ
delivery d size header rest = preamble size header Route.deliver (deliver_body d rest) ++ d.message

-- The metadata that arrives: a deadline loses what is beyond its
-- milliseconds, one within the epoch's millisecond is none, and a trace that does not fit is left
-- out.
abbrev pub arrives : Deliver → Deliver
arrives d = record d {
  metadata = record {
    deadline = deadline_of (unix_milli d.metadata.deadline);
    correlation_id = d.metadata.correlation_id;
    trace_parent = if has_trace_context d.metadata then d.metadata.trace_parent else [];
    trace_state = if has_trace_context d.metadata then d.metadata.trace_state else [];
  };
}
