-- ===== src/Protocol/Deliver/Fields.antt =====
-- internal/transporter/internal/protocol/deliver.go: how the decoder reads the fields of a delivery.

use due.Base.{
  List, [], arith, drop, eqb, false, length, le→ltb, ltb, lt→ltb, suc, true, ℕ, ◌++◌, ◌+◌, ◌-◌, ◌<◌,
  ◌^◌, ◌||◌, ◌∷◌, ◌≡◌, ◌≤◌,
}
use due.Buffer.Order.{big, put}
use due.Buffer.Reader.{read_int64, read_string, read_uint16, read_uint64, read_uint8}
use due.Buffer.Reader.Reads.{Reads, and_then-Reads, read_string-Reads}
use due.Buffer.Writer.Appends.{words}
use due.Protocol.Frames.{
  read_int64-Reads, read_uint16-Reads, read_uint64-Reads, read_uint8-Reads, return-Reads,
  then-Reads,
}
use due.Protocol.RoundTrip.{word-Reads}
use due.Protocol.Deliver.{
  Deliver, RequestMetadata, deadline_of, deliver_fields, has_trace_context, read_text, trace_fields,
  trace_part, unix_milli,
}

-- The fields fit their types in Go, and the correlation identifier its length field.
unfoldable pub IsDeliver : Deliver → Type 0
IsDeliver d =
    (d.seq < 256 ^ 8)
    × (d.cid < 256 ^ 8)
    × (d.uid < 256 ^ 8)
    × (d.generation < 256 ^ 8)
    × (unix_milli d.metadata.deadline < 256 ^ 8)
    × (length d.metadata.correlation_id < 256 ^ 2)

read_text-Reads : (s : List ℕ) → Reads (read_text (length s)) s s
unfolding Reads
read_text-Reads [] = return-Reads []
read_text-Reads (x ∷ xs) =
    rw (lt→ltb 0 (suc (length xs)) (omega arith)) (read_string-Reads (x ∷ xs))

half-Reads : (v : ℕ) → v < 256 ^ 2 → Reads (read_uint16 big) (words big 2 (v ∷ [])) v
unfolding put
half-Reads v h = read_uint16-Reads v h

abbrev pub trace_bytes : RequestMetadata → List ℕ
trace_bytes m =
    (1 ∷ [])
    ++ (words big 2 (length m.trace_parent ∷ [])
        ++ (words big 2 (length m.trace_state ∷ []) ++ (m.trace_parent ++ m.trace_state)))

pub trace_fields-Reads :
    (m : RequestMetadata) (frame : List ℕ) (offset : ℕ)
    → has_trace_context m ≡ true
    → offset + (5 + (length m.trace_parent + length m.trace_state)) ≤ length frame
    → Reads (trace_fields frame offset) (trace_bytes m) (
      offset + (5 + (length m.trace_parent + length m.trace_state)),
      m.trace_parent,
      m.trace_state,
    )
unfolding has_trace_context Reads
trace_fields-Reads m frame offset h room =
    let p = length m.trace_parent in
    let s = length m.trace_state in
    let head_fits : ltb (length frame - offset) 5 ≡ false =
      le→ltb (length frame - offset) 5 (omega (arith, room)) in
    let fits : (eqb p 0 || ltb (length frame - offset - 5) (p + s)) ≡ false =
      ground (arith, h, room) in
    let small : p < 256 ^ 2 = ground (arith, h) in
    let small' : s < 256 ^ 2 = ground (arith, h) in
    rw (head_fits) (
      then-Reads read_uint8 _ (1 ∷ []) _ 1 _ (read_uint8-Reads 1 (omega arith)) (
        then-Reads (read_uint16 big) _ (words big 2 (p ∷ [])) _ p _ (half-Reads p small) (
          then-Reads (read_uint16 big) _ (words big 2 (s ∷ [])) _ s _ (half-Reads s small') (
            rw (fits) (
              then-Reads (read_string p) _ m.trace_parent m.trace_state m.trace_parent _
                (read_string-Reads m.trace_parent)
                (and_then-Reads (read_text s) (λ t. (offset + (5 + (p + s)), m.trace_parent, t))
                  m.trace_state m.trace_state (read_text-Reads m.trace_state)))))))

abbrev pub deliver_body : Deliver → List ℕ → List ℕ
deliver_body d rest =
    words big 8 (d.seq ∷ [])
    ++ (words big 8 (d.cid ∷ [])
        ++ (words big 8 (d.uid ∷ [])
            ++ (words big 8 (d.generation ∷ [])
                ++ (words big 8 (unix_milli d.metadata.deadline ∷ [])
                    ++ (words big 2 (length d.metadata.correlation_id ∷ [])
                        ++ (d.metadata.correlation_id ++ rest))))))

-- What the decoder makes of a delivery, by the offset of the message and the trace.
abbrev pub seen : Deliver → List ℕ → ℕ × List ℕ × List ℕ → Deliver
seen d frame (offset, parent, state) = record d {
  metadata = record {
    deadline = deadline_of (unix_milli d.metadata.deadline);
    correlation_id = d.metadata.correlation_id;
    trace_parent = parent;
    trace_state = state;
  };
  message = drop offset frame;
}

pub deliver_fields-Reads :
    (d : Deliver) (frame : List ℕ) (header : ℕ) (rest : List ℕ) (t : ℕ × List ℕ × List ℕ)
    → IsDeliver d
    → 48 + length d.metadata.correlation_id ≤ length frame
    → Reads (trace_part frame header (48 + length d.metadata.correlation_id)) rest t
    → Reads (deliver_fields frame header) (deliver_body d rest) (seen d frame t)
unfolding IsDeliver
deliver_fields-Reads d frame header rest t (hs, hc, hu, hg, hd, hn) room h =
    let m = d.metadata in
    let n = length m.correlation_id in
    let fits : ltb (length frame - 48) n ≡ false =
      le→ltb (length frame - 48) n (omega (arith, room)) in
    then-Reads (read_uint64 big) _ (words big 8 (d.seq ∷ [])) _ d.seq _
      (word-Reads (read_uint64 big) d.seq d.seq (read_uint64-Reads d.seq hs))
      (then-Reads (read_int64 big) _ (words big 8 (d.cid ∷ [])) _ d.cid _
        (word-Reads (read_int64 big) d.cid d.cid (read_int64-Reads d.cid hc))
        (then-Reads (read_int64 big) _ (words big 8 (d.uid ∷ [])) _ d.uid _
          (word-Reads (read_int64 big) d.uid d.uid (read_int64-Reads d.uid hu))
          (then-Reads (read_uint64 big) _ (words big 8 (d.generation ∷ [])) _ d.generation _
            (word-Reads (read_uint64 big) d.generation d.generation
              (read_uint64-Reads d.generation hg))
            (then-Reads (read_int64 big) _ (words big 8 (unix_milli m.deadline ∷ [])) _
              (unix_milli m.deadline) _
              (word-Reads (read_int64 big) (unix_milli m.deadline) (unix_milli m.deadline)
                (read_int64-Reads (unix_milli m.deadline) hd))
              (then-Reads (read_uint16 big) _ (words big 2 (n ∷ [])) _ n _ (half-Reads n hn) (
                rw (fits) (
                  then-Reads (read_text n) _ m.correlation_id rest m.correlation_id _
                    (read_text-Reads m.correlation_id)
                    (and_then-Reads (trace_part frame header (48 + n)) (seen d frame) rest t
                      h))))))))
