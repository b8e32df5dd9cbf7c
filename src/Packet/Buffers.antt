-- ===== src/Packet/Buffers.antt =====
-- packet/packer.go: that both ways of packing make the same frames.
use due.Base.{
  Bool-cases, Option-cases, [], ap, append-nil, append_assoc, arith, eqb, inl, inr, refl, some,
  subst, sym, take, ℕ, ◌%◌, ◌*◌, ◌++◌, ◌<◌, ◌^◌, ◌∙◌, ◌∷◌, ◌≡◌,
}
use due.Base.Ints.{pattern_of, pattern_of-bound, ℤ}
use due.Buffer.Order.{ByteOrder, big, little, put}
use due.Buffer.Writer.{Writer, bytes, grow, put_words, write_int16s, write_int32s, write_int8s}
use due.Buffer.Writer.Appends.{Appends, IsReady, put_bytes-Appends, put_words-Appends}
use due.Protocol.{data_bit, run}
use due.Protocol.Frames.{Each, concat, run-Appends}
use due.Packet.Frame.{IsPacker, packed}
use due.Packet.{
  Message, Packer, body_size, check_message, pack_buffer, pack_message, signed_bytes, write_signed,
}

word_Appends :
    (o : ByteOrder) (k v : ℕ) → Appends (λ w. put_words o k (v ∷ []) (grow (k * 1) w)) (put o k v)
word_Appends o k v =
    subst (Appends (λ w. put_words o k (v ∷ []) (grow (k * 1) w))) (append-nil (put o k v))
      (put_words-Appends o k (v ∷ []))

byte_Appends : (o : ByteOrder) (v : ℕ) → v < 256 → Appends (write_int8s (v ∷ [])) (put o 1 v)
unfolding write_int8s put
byte_Appends big v h =
    let e : v % 256 ≡ v = omega arith in
    subst (λ b. Appends (write_int8s (v ∷ [])) (b ∷ [])) (sym e) (put_bytes-Appends (v ∷ []))
byte_Appends little v h =
    let e : v % 256 ≡ v = omega arith in
    subst (λ b. Appends (write_int8s (v ∷ [])) (b ∷ [])) (sym e) (put_bytes-Appends (v ∷ []))

nothing_Appends : Appends (λ w. some w) []
unfolding Appends
nothing_Appends w h = (w, refl, h, sym (append-nil (bytes w)))

write_signed-Appends :
    (o : ByteOrder) (n : ℕ) (z : ℤ) → Appends (write_signed o n z) (signed_bytes o n z)
unfolding write_signed signed_bytes write_int16s write_int32s
write_signed-Appends o n z = elim (Bool-cases (eqb n 1)) [
  | inl e ↦
      rw (e, write_signed, signed_bytes)
        (byte_Appends o (pattern_of 1 z) (pattern_of-bound 1 z (omega arith)))
  | inr e ↦ elim (Bool-cases (eqb n 2)) [
    | inl e' ↦ rw (e, e', write_signed, signed_bytes) (word_Appends o 2 (pattern_of 2 z))
    | inr e' ↦ elim (Bool-cases (eqb n 4)) [
      | inl e'' ↦ rw (e, e', e'', write_signed, signed_bytes) (word_Appends o 4 (pattern_of 4 z))
      | inr e'' ↦ rw (e, e', e'', write_signed, signed_bytes) nothing_Appends
    ]
  ]
]

fields-Appends :
    (p : Packer) (m : Message) (w : Writer)
    → IsReady w
    → w.off ≡ 0
    → (w' : Writer) × (run
          (write_int32s p.opts.byte_order (body_size p m % 2 ^ 32 ∷ [])
            ∷ write_int8s (data_bit ∷ [])
            ∷ write_signed p.opts.byte_order p.opts.route_bytes m.route
            ∷ write_signed p.opts.byte_order p.opts.seq_bytes m.seq
            ∷ [])
          w
        ≡ some w')
      × (bytes w' ++ m.buffer ≡ packed p m)
unfolding Each concat packed write_int32s Appends
fields-Appends p m w h z =
    let o = p.opts.byte_order in
    let n = body_size p m % 2 ^ 32 in
    let a = put o 4 n in
    let b = put o 1 data_bit in
    let c = signed_bytes o p.opts.route_bytes m.route in
    let d = signed_bytes o p.opts.seq_bytes m.seq in
    let (w', e, _, written) =
      run-Appends _ (a ∷ b ∷ c ∷ d ∷ [])
        (
          word_Appends o 4 n,
          (
            byte_Appends o data_bit (omega arith),
            (
              write_signed-Appends o p.opts.route_bytes m.route,
              (write_signed-Appends o p.opts.seq_bytes m.seq, tt),
            ),
          ),
        )
        w h in
    let empty : bytes w ≡ [] = ap (λ k. take k w.mem) z in
    (
      w',
      e,
      ap (λ xs. xs ++ m.buffer) (written ∙ ap (λ xs. xs ++ (a ++ (b ++ (c ++ d)))) empty)
          ∙ append_assoc a (b ++ (c ++ d)) m.buffer
          ∙ ap (λ xs. a ++ xs)
              (append_assoc b (c ++ d) m.buffer ∙ ap (λ xs. b ++ xs) (append_assoc c d m.buffer)),
    )

-- For a packer that `NewPacker` accepts and any message, on a writer at its start whose slice
-- reaches to its capacity, `PackBuffer` does not panic and answers what `PackMessage` answers, the
-- same bytes or the same error.
pub pack_buffer-pack_message :
    (p : Packer) (m : Message) (w : Writer)
    → IsPacker p
    → IsReady w
    → w.off ≡ 0
    → pack_buffer p m w ≡ some (pack_message p m)
unfolding pack_buffer pack_message packed
pack_buffer-pack_message p m w made h z =
    let (w', e, b) = fields-Appends p m w h z in
    elim (Option-cases (check_message p m)) [
      | inl c ↦ rw (c, e, b, pack_buffer, pack_message) refl
      | inr (x, c) ↦ rw (c, pack_buffer, pack_message) refl
    ]
