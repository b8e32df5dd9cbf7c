-- ===== src/Protocol/Deliver.antt =====
-- internal/transporter/internal/protocol/deliver.go: the request that brings a message to a node, with
-- its metadata.
pub mod Fields
pub mod RoundTrip
use Prim.Native.Nat.{bit_and}
use due.Base.{
  Bool, List, Option, [], drop, eqb, if◌then◌else◌, leb, length, ltb, none, not, some, ℕ, ◌%◌, ◌&&◌,
  ◌+◌, ◌-◌, ◌^◌, ◌||◌, ◌∷◌,
}
use due.Buffer.Order.{big}
use due.Buffer.Reader.{
  Read, and_then, forward, new_reader, read_int64, read_string, read_uint16, read_uint64,
  read_uint8, seek, seek_start,
}
use due.Buffer.Writer.{
  Writer, write_int64s, write_string, write_uint16s, write_uint64s, write_uint8s,
}
use due.Errors.{Result, err, invalid_message, ok}
use due.Protocol.{Route, data_bit, deliver, head, run, size_bytes}
use due.Protocol.Groups.{with_message}

abbrev pub trace_context_bit : ℕ
trace_context_bit = 32

-- A time.Time: its Unix milliseconds, as the bits of an int64, and the nanoseconds beyond them.
pub record Time : Type 0 where
  pub milliseconds : ℕ
  pub nanoseconds : ℕ

-- cluster.RequestMetadata; none is the zero time.
pub record RequestMetadata : Type 0 where
  pub deadline : Option Time
  pub correlation_id : List ℕ
  pub trace_parent : List ℕ
  pub trace_state : List ℕ

pub record Deliver : Type 0 where
  pub seq : ℕ
  pub cid : ℕ
  pub uid : ℕ
  pub generation : ℕ
  pub metadata : RequestMetadata
  pub message : List ℕ

unfoldable pub has_trace_context : RequestMetadata → Bool
has_trace_context m =
    not (eqb (length m.trace_parent) 0)
    && leb (length m.trace_parent) 65535
    && leb (length m.trace_state) 65535

-- `Deadline.UnixMilli()` of a deadline that is not the zero time; the nanoseconds are dropped.
abbrev pub unix_milli : Option Time → ℕ
unix_milli none = 0
unix_milli (some d) = d.milliseconds

abbrev pub deliver_ops : Deliver → List (Writer → Option Writer) → List (Writer → Option Writer)
deliver_ops d rest =
    write_int64s big (d.cid ∷ d.uid ∷ [])
    ∷ write_uint64s big (d.generation ∷ [])
    ∷ write_int64s big (unix_milli d.metadata.deadline ∷ [])
    ∷ write_uint16s big (length d.metadata.correlation_id % 2 ^ 16 ∷ [])
    ∷ write_string d.metadata.correlation_id
    ∷ rest

abbrev pub trace_ops : RequestMetadata → List (Writer → Option Writer)
trace_ops m =
    write_uint8s (1 ∷ [])
    ∷ write_uint16s big (length m.trace_parent ∷ length m.trace_state ∷ [])
    ∷ write_string m.trace_parent
    ∷ write_string m.trace_state
    ∷ []

unfoldable pub encode_deliver_req_with_metadata : Deliver → Writer → Option (List ℕ)
encode_deliver_req_with_metadata d w =
    let m = d.metadata in
    let size = 48 + length m.correlation_id in
    let traced = size + (5 + length m.trace_parent + length m.trace_state) in
    with_message d.message (
      if has_trace_context m
      then run
          (head (traced - size_bytes + length d.message) trace_context_bit Route.deliver d.seq
            (deliver_ops d (trace_ops m)))
          w
      else run
          (head (size - size_bytes + length d.message) data_bit Route.deliver d.seq
            (deliver_ops d []))
          w)

-- `time.UnixMilli`, if the number is not 0.
abbrev pub deadline_of : ℕ → Option Time
deadline_of n = if eqb n 0 then none else some (record { milliseconds = n; nanoseconds = 0 })

-- `if n > 0` around `ReadString`.
abbrev pub read_text : ℕ → Read (List ℕ)
read_text n r = if ltb 0 n then read_string n r else (ok [], r)

-- The trace context, whose message starts at this offset, and where the message starts then.
abbrev pub trace_fields : List ℕ → ℕ → Read (ℕ × List ℕ × List ℕ)
trace_fields frame offset r0 =
    if ltb (length frame - offset) 5
    then (err invalid_message, r0)
    else and_then (read_uint8 r0) λ version r1.
      if not (eqb version 1)
      then (err invalid_message, r1)
      else and_then (read_uint16 big r1) λ parent r2. and_then (read_uint16 big r2) λ state r3.
        if eqb parent 0 || ltb (length frame - offset - 5) (parent + state)
        then (err invalid_message, r3)
        else and_then (read_string parent r3) λ trace_parent r4.
          and_then (read_text state r4)
            λ trace_state r5. (ok (offset + (5 + (parent + state)), trace_parent, trace_state), r5)

abbrev pub trace_part : List ℕ → ℕ → ℕ → Read (ℕ × List ℕ × List ℕ)
trace_part frame header offset r =
    if eqb (bit_and header trace_context_bit) trace_context_bit
    then trace_fields frame offset r
    else (ok (offset, [], []), r)

abbrev pub deliver_fields : List ℕ → ℕ → Read Deliver
deliver_fields frame header r0 = and_then (read_uint64 big r0) λ seq r1.
    and_then (read_int64 big r1) λ cid r2. and_then (read_int64 big r2) λ uid r3.
      and_then (read_uint64 big r3) λ generation r4. and_then (read_int64 big r4) λ deadline r5.
        and_then (read_uint16 big r5) λ n r6.
          if ltb (length frame - 48) n
          then (err invalid_message, r6)
          else and_then (read_text n r6) λ correlation_id r7.
            and_then (trace_part frame header (48 + n) r7) λ (offset, trace_parent, trace_state) r8.
              (
                ok record {
                  seq = seq;
                  cid = cid;
                  uid = uid;
                  generation = generation;
                  metadata = record {
                    deadline = deadline_of deadline;
                    correlation_id = correlation_id;
                    trace_parent = trace_parent;
                    trace_state = trace_state;
                  };
                  message = drop offset frame;
                },
                r8,
              )

-- `data[defaultSizeBytes]`; a frame of 48 bytes has it.
abbrev pub header_of : List ℕ → ℕ
header_of frame = elim (drop 4 frame) [ [] ↦ 0 | header ∷ rest ↦ header ]

unfoldable pub decode_deliver_req_with_metadata : List ℕ → Result Deliver
decode_deliver_req_with_metadata frame =
    if ltb (length frame) 48
    then err invalid_message
    else (and_then (seek (forward 6) seek_start (new_reader frame))
        λ _ r. deliver_fields frame (header_of frame) r).0
