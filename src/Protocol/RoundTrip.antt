-- ===== src/Protocol/RoundTrip.antt =====
-- internal/transporter/internal/protocol: what is decoded from the frames that are encoded.
use due.Base.{
  List, Option, [], ap, append-nil, arith, if_eqb, length, length-append, refl, some, subst, sym, ℕ,
  ◌++◌, ◌+◌, ◌<◌, ◌^◌, ◌∙◌, ◌∷◌, ◌≡◌,
}
use due.Buffer.Order.{big, put}
use due.Buffer.Reader.{
  Read, Reader, and_then, forward, new_reader, read_int64, read_uint64, seek, seek_start,
}
use due.Buffer.Writer.{Writer, bytes, write_int64s, write_uint32s, write_uint64s, write_uint8s}
use due.Buffer.Writer.Appends.{
  Appends, IsReady, length-words, put_bytes-Appends, put_words-Appends, words,
}
use due.Protocol.{Route, bind, data_bit, head, number, run}
use due.Protocol.Requests.{
  bind_req_fields, decode_bind_req, decode_unbind_req, encode_bind_req, encode_unbind_req,
  unbind_req_fields,
}
use due.Protocol.Frames.{Each, concat, read_int64-Reads, read_uint64-Reads, run-Appends, then-Reads}
use due.Errors.{ok}
use due.Buffer.Reader.Reads.{IsAt, Reads, and_then-Reads}

-- The bytes of the header that `head` writes, up to the sequence number.
abbrev pub preamble : ℕ → ℕ → Route → List ℕ → List ℕ
preamble size header route rest =
    words big 4 (size ∷ []) ++ ((header ∷ []) ++ ((number route ∷ []) ++ rest))

-- What a writer from the pool holds once the operations ran.
abbrev pub Frame : List (Writer → Option Writer) → List ℕ → Type 0
Frame ms bs =
    (w : Writer) → IsReady w → w.off ≡ 0 → (w' : Writer) × (run ms w ≡ some w') × (bytes w' ≡ bs)

run-Frame :
    (ms : List (Writer → Option Writer)) (bss : List (List ℕ)) → Each ms bss → Frame ms (concat bss)
unfolding Appends
run-Frame ms bss h w r o = let (w', e, _, b) = run-Appends ms bss h w r in (w', e, rw (b, o) refl)

-- The frame of a header and a body.
pub head-Frame :
    (size header seq : ℕ) (route : Route) (ms : List (Writer → Option Writer)) (bss : List (List ℕ))
    → Each ms bss
    → Frame
        (head size header route seq ms)
        (preamble size header route (concat (words big 8 (seq ∷ []) ∷ bss)))
unfolding Each concat write_uint32s write_uint8s write_uint64s
head-Frame size header seq route ms bss h =
    run-Frame (head size header route seq ms)
      (words big 4 (size ∷ []) ∷ (header ∷ []) ∷ (number route ∷ []) ∷ words big 8 (seq ∷ []) ∷ bss)
      (
        put_words-Appends big 4 (size ∷ []),
        (
          put_bytes-Appends (header ∷ []),
          (put_bytes-Appends (number route ∷ []), (put_words-Appends big 8 (seq ∷ []), h)),
        ),
      )

pub word-Reads {ℓ} :
    {A : Type ℓ} (m : Read A) (v : ℕ) (a : A)
    → Reads m (put big 8 v) a
    → Reads m (words big 8 (v ∷ [])) a
word-Reads m v a h = subst (λ bs. Reads m bs a) (sym (append-nil (put big 8 v))) h

-- A reader behind the size, the header and the route of a frame reads the body.
pub body-read {ℓ} :
    {A : Type ℓ} (m : Read A) (bs : List ℕ) (a : A) (size header : ℕ) (route : Route)
    → Reads m bs a
    → (and_then
        (seek (forward 6) seek_start (new_reader (preamble size header route bs)))
        (λ _ r. m r)).0
      ≡ ok a
unfolding IsAt Reads put seek
body-read m bs a size header route h =
    let r : Reader = record { buf = preamble size header route bs; off = 6 } in
    let (r', e, _) = h r [] (omega arith, sym (append-nil bs)) in ap (λ x. x.0) e

pub length-preamble :
    (size header : ℕ) (route : Route) (bs : List ℕ)
    → length (preamble size header route bs) ≡ 6 + length bs
unfolding put
length-preamble size header route bs = omega arith

bind_req_body : ℕ → ℕ → ℕ → List ℕ
bind_req_body seq cid uid = words big 8 (seq ∷ []) ++ words big 8 (cid ∷ uid ∷ [])

bind_req_body-Reads :
    (seq cid uid : ℕ)
    → seq < 256 ^ 8
    → cid < 256 ^ 8
    → uid < 256 ^ 8
    → Reads {A = ℕ × ℕ × ℕ} bind_req_fields (bind_req_body seq cid uid) (seq, cid, uid)
unfolding bind_req_body
bind_req_body-Reads seq cid uid hs hc hu =
    then-Reads (read_uint64 big) _ (words big 8 (seq ∷ [])) (words big 8 (cid ∷ uid ∷ [])) seq _
      (word-Reads (read_uint64 big) seq seq (read_uint64-Reads seq hs))
      (then-Reads (read_int64 big) _ (put big 8 cid) (words big 8 (uid ∷ [])) cid _
        (read_int64-Reads cid hc)
        (and_then-Reads (read_int64 big) (λ u. (seq, cid, u)) (words big 8 (uid ∷ [])) uid
          (word-Reads (read_int64 big) uid uid (read_int64-Reads uid hu))))

length-bind_req_body : (seq cid uid : ℕ) → length (bind_req_body seq cid uid) ≡ 24
unfolding bind_req_body
length-bind_req_body seq cid uid = omega (
  arith,
  length-append (words big 8 (seq ∷ [])) (words big 8 (cid ∷ uid ∷ [])),
  length-words big 8 (seq ∷ []),
  length-words big 8 (cid ∷ uid ∷ []),
)

decode_bind :
    (seq cid uid : ℕ)
    → seq < 256 ^ 8
    → cid < 256 ^ 8
    → uid < 256 ^ 8
    → decode_bind_req (preamble 26 data_bit bind (bind_req_body seq cid uid)) ≡ ok (seq, cid, uid)
unfolding decode_bind_req
decode_bind seq cid uid hs hc hu =
    let bs = bind_req_body seq cid uid in
    let l = length-preamble 26 data_bit bind bs ∙ ap (◌+◌ 6) (length-bind_req_body seq cid uid) in
    if_eqb (length (preamble 26 data_bit bind bs)) 30 _ _ l
    ∙ body-read bind_req_fields (bind_req_body seq cid uid) (seq, cid, uid) 26 data_bit bind
        (bind_req_body-Reads seq cid uid hs hc hu)

-- For 64-bit words, and a writer at its start whose slice reaches to its capacity, a bind request
-- is encoded without a panic and decodes to its sequence number, connection and user.
pub bind_req-roundtrip :
    (seq cid uid : ℕ) (w : Writer)
    → IsReady w
    → w.off ≡ 0
    → seq < 256 ^ 8
    → cid < 256 ^ 8
    → uid < 256 ^ 8
    → (w' : Writer) × (encode_bind_req seq cid uid w ≡ some w')
      × (decode_bind_req (bytes w') ≡ ok (seq, cid, uid))
unfolding encode_bind_req write_int64s Each bind_req_body concat
bind_req-roundtrip seq cid uid w r o hs hc hu =
    let (w', e, b) =
      head-Frame 26 data_bit seq bind (write_int64s big (cid ∷ uid ∷ []) ∷ [])
        (words big 8 (cid ∷ uid ∷ []) ∷ []) (put_words-Appends big 8 (cid ∷ uid ∷ []), tt) w r o in
    (w', e, ap decode_bind_req b ∙ decode_bind seq cid uid hs hc hu)

unbind_req_fields-Reads :
    (seq uid : ℕ)
    → seq < 256 ^ 8
    → uid < 256 ^ 8
    → Reads {A = ℕ × ℕ} unbind_req_fields
        (words big 8 (seq ∷ []) ++ words big 8 (uid ∷ []))
        (seq, uid)
unbind_req_fields-Reads seq uid hs hu =
    then-Reads (read_uint64 big) _ (words big 8 (seq ∷ [])) (words big 8 (uid ∷ [])) seq _
      (word-Reads (read_uint64 big) seq seq (read_uint64-Reads seq hs))
      (and_then-Reads (read_int64 big) (λ u. (seq, u)) (words big 8 (uid ∷ [])) uid
        (word-Reads (read_int64 big) uid uid (read_int64-Reads uid hu)))

decode_unbind :
    (seq uid : ℕ)
    → seq < 256 ^ 8
    → uid < 256 ^ 8
    → decode_unbind_req
        (preamble 18 data_bit Route.unbind (words big 8 (seq ∷ []) ++ words big 8 (uid ∷ [])))
      ≡ ok (seq, uid)
unfolding decode_unbind_req
decode_unbind seq uid hs hu =
    let bs = words big 8 (seq ∷ []) ++ words big 8 (uid ∷ []) in
    let l : length (preamble 18 data_bit Route.unbind bs) ≡ 22 =
      length-preamble 18 data_bit Route.unbind bs
      ∙ omega (
        arith,
        length-append (words big 8 (seq ∷ [])) (words big 8 (uid ∷ [])),
        length-words big 8 (seq ∷ []),
        length-words big 8 (uid ∷ []),
      ) in
    if_eqb (length (preamble 18 data_bit Route.unbind bs)) 22 _ _ l
    ∙ body-read unbind_req_fields bs (seq, uid) 18 data_bit Route.unbind
        (unbind_req_fields-Reads seq uid hs hu)

-- For 64-bit words, and a writer at its start whose slice reaches to its capacity, an unbind
-- request is encoded without a panic and decodes to its sequence number and user.
pub unbind_req-roundtrip :
    (seq uid : ℕ) (w : Writer)
    → IsReady w
    → w.off ≡ 0
    → seq < 256 ^ 8
    → uid < 256 ^ 8
    → (w' : Writer) × (encode_unbind_req seq uid w ≡ some w')
      × (decode_unbind_req (bytes w') ≡ ok (seq, uid))
unfolding encode_unbind_req write_int64s Each concat
unbind_req-roundtrip seq uid w r o hs hu =
    let (w', e, b) =
      head-Frame 18 data_bit seq Route.unbind (write_int64s big (uid ∷ []) ∷ [])
        (words big 8 (uid ∷ []) ∷ []) (put_words-Appends big 8 (uid ∷ []), tt) w r o in
    (w', e, ap decode_unbind_req b ∙ decode_unbind seq uid hs hu)
