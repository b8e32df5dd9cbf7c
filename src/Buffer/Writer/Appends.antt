-- ===== src/Buffer/Writer/Appends.antt =====
-- core/buffer/writer.go: what the write operations leave in the buffer.
use due.Base.{
  Bool, Bool-cases, List, Option, [], ap, append-nil, append_assoc, arith, drop, inl, inr, length,
  length-append, length-drop, length-replicate, length-take_le, le→leb, ltb, map, refl, replicate,
  some, subst, suc, sym, take, take-add-append, take-length, take-take_self, ℕ, ◌*◌, ◌++◌, ◌+◌, ◌-◌,
  ◌∙◌, ◌∷◌, ◌≡◌, ◌≤◌,
}
use due.Buffer.Order.{ByteOrder, length-put, put}
use Prim.Native.Nat.{min}
use due.Buffer.Writer.{
  Writer, bool_byte, bytes, grow, grow_slice, next_capacity, put_byte, put_bytes, put_word,
  put_words, splice, write_bools, write_bytes,
}

-- The slice reaches to its capacity, as `NewWriterWithCapacity` and `growSlice` make it.
unfoldable pub IsReady : Writer → Type 0
IsReady w = (w.len ≡ length w.mem) × (w.off ≤ length w.mem)

pub Extends : List ℕ → Writer → Writer → Type 0
Extends bs w w' =
    (length w'.mem ≡ length w.mem)
    × (w'.len ≡ w.len)
    × (w'.off ≡ w.off + length bs)
    × (bytes w' ≡ bytes w ++ bs)

splice-Extends :
    (bs : List ℕ) (w : Writer) → w.off + length bs ≤ length w.mem → Extends bs w (splice bs w)
unfolding splice Extends
splice-Extends bs w h =
    let t = length-take_le w.off w.mem (omega arith) in
    (
      omega (
        arith,
        t,
        length-append (take w.off w.mem) (bs ++ drop (w.off + length bs) w.mem),
        length-append bs (drop (w.off + length bs) w.mem),
        length-drop (w.off + length bs) w.mem,
      ),
      refl,
      refl,
      take-add-append w.off w.mem bs (drop (w.off + length bs) w.mem) (omega arith),
    )

Extends-refl : (w : Writer) → Extends [] w w
unfolding Extends
Extends-refl w = (refl, refl, omega arith, sym (append-nil (bytes w)))

Extends-trans :
    (xs ys : List ℕ) (u v w : Writer) → Extends xs u v → Extends ys v w → Extends (xs ++ ys) u w
unfolding Extends
Extends-trans xs ys u v w (a, b, c, d) (a', b', c', d') = (
  a' ∙ a,
  b' ∙ b,
  omega (arith, length-append xs ys),
  d' ∙ ap (λ zs. zs ++ ys) d ∙ append_assoc (bytes u) xs ys,
)

abbrev pub words : ByteOrder → ℕ → List ℕ → List ℕ
words o k [] = []
words o k (v ∷ vs) = put o k v ++ words o k vs

put_word-Extends :
    (o : ByteOrder) (k v : ℕ) (w : Writer)
    → w.off + k ≤ length w.mem
    → (w' : Writer) × (put_word o k v w ≡ some w') × Extends (put o k v) w w'
unfolding put_word
put_word-Extends o k v w h = (
  splice (put o k v) w,
  ground arith,
  splice-Extends (put o k v) w (omega (arith, length-put o k v)),
)

put_words-Extends :
    (o : ByteOrder) (k : ℕ) (vs : List ℕ) (w : Writer)
    → w.off + k * length vs ≤ length w.mem
    → (w' : Writer) × (put_words o k vs w ≡ some w') × Extends (words o k vs) w w'
unfolding put_words Extends
put_words-Extends o k [] w h = (w, refl, Extends-refl w)
put_words-Extends o k (v ∷ vs) w h =
    let p = put_word-Extends o k v w (omega arith) in
    let (a, b, c, d) = p.2 in
    let q = put_words-Extends o k vs p.0 (omega (arith, a, c, length-put o k v)) in
    (q.0, rw (p.1, put_words) q.1, Extends-trans (put o k v) (words o k vs) w p.0 q.0 p.2 q.2)

put_byte-Extends :
    (v : ℕ) (w : Writer)
    → w.off + 1 ≤ length w.mem
    → w.len ≡ length w.mem
    → (w' : Writer) × (put_byte v w ≡ some w') × Extends (v ∷ []) w w'
unfolding put_byte
put_byte-Extends v w h e = (splice (v ∷ []) w, ground arith, splice-Extends (v ∷ []) w h)

put_bytes-Extends :
    (vs : List ℕ) (w : Writer)
    → w.off + length vs ≤ length w.mem
    → w.len ≡ length w.mem
    → (w' : Writer) × (put_bytes vs w ≡ some w') × Extends vs w w'
unfolding put_bytes Extends
put_bytes-Extends [] w h e = (w, refl, Extends-refl w)
put_bytes-Extends (v ∷ vs) w h e =
    let p = put_byte-Extends v w (omega arith) e in
    let (a, b, c, d) = p.2 in
    let q = put_bytes-Extends vs p.0 (omega (arith, a, c)) (b ∙ e ∙ sym a) in
    (q.0, rw (p.1, put_bytes) q.1, Extends-trans (v ∷ []) vs w p.0 q.0 p.2 q.2)

next_capacity_enough : (n : ℕ) (w : Writer) → w.len + n ≤ next_capacity n w
unfolding next_capacity
next_capacity_enough n w = ground arith

grow-IsReady :
    (n : ℕ) (w : Writer)
    → IsReady w
    → IsReady (grow n w)
      × ((grow n w).off ≡ w.off)
      × (bytes (grow n w) ≡ bytes w)
      × (w.off + n ≤ length (grow n w).mem)
unfolding grow grow_slice IsReady
grow-IsReady n w (e, h) =
    let c = next_capacity n w in
    let l = length-take_le w.off w.mem h in
    let m = length-append (take w.off w.mem) (replicate (c - w.off) 0) in
    let r = length-replicate {A = ℕ} (c - w.off) 0 in
    let k = next_capacity_enough n w in
    elim (Bool-cases (ltb (w.off + n) (length w.mem))) [
      | inl f ↦ rw (f) ((e, h), refl, refl, ground arith)
      | inr f ↦ rw (f) (
        (omega (arith, e, l, m, r, k), omega (arith, l, m, r, k)),
        refl,
        take-take_self w.off w.mem (replicate (c - w.off) 0) h,
        omega (arith, e, l, m, r, k),
      )
    ]

-- An operation that puts `bs` behind what a ready writer holds.
unfoldable pub Appends : (Writer → Option Writer) → List ℕ → Type 0
Appends m bs =
    (w : Writer)
    → IsReady w
    → (w' : Writer) × (m w ≡ some w') × IsReady w' × (bytes w' ≡ bytes w ++ bs)

Extends-Appends :
    (bs : List ℕ) (w g w' : Writer)
    → IsReady g
    → bytes g ≡ bytes w
    → w.off ≡ g.off
    → g.off + length bs ≤ length g.mem
    → Extends bs g w'
    → IsReady w' × (bytes w' ≡ bytes w ++ bs)
unfolding Extends IsReady
Extends-Appends bs w g w' (e, h) f o l (a, b, c, d) =
    ((b ∙ e ∙ sym a, omega (arith, a, c)), rw (d, f) refl)

pub length-words : (o : ByteOrder) (k : ℕ) (vs : List ℕ) → length (words o k vs) ≡ k * length vs
length-words o k [] = omega arith
length-words o k (v ∷ vs) =
    omega (arith, length-append (put o k v) (words o k vs), length-put o k v, length-words o k vs)

pub put_words-Appends :
    (o : ByteOrder) (k : ℕ) (vs : List ℕ)
    → Appends (λ w. put_words o k vs (grow (k * length vs) w)) (words o k vs)
unfolding Appends IsReady
put_words-Appends o k vs w h =
    let g = grow (k * length vs) w in
    let (r, e, b, l) = grow-IsReady (k * length vs) w h in
    let (w', m, x) = put_words-Extends o k vs g (omega (arith, e, l)) in
    let room : g.off + length (words o k vs) ≤ length g.mem =
      omega (arith, e, l, length-words o k vs) in
    let (ready, written) = Extends-Appends (words o k vs) w g w' r b (sym e) room x in
    (w', m, ready, written)

pub put_bytes-Appends : (vs : List ℕ) → Appends (λ w. put_bytes vs (grow (length vs) w)) vs
unfolding Appends IsReady
put_bytes-Appends vs w h =
    let g = grow (length vs) w in
    let (r, e, b, l) = grow-IsReady (length vs) w h in
    let (w', m, x) = put_bytes-Extends vs g (omega (arith, e, l)) r.0 in
    let (ready, written) = Extends-Appends vs w g w' r b (sym e) (omega (arith, e, l)) x in
    (w', m, ready, written)

-- Copying all of `vs` is writing them at the offset.
copy_all :
    (vs : List ℕ) (g : Writer)
    → IsReady g
    → g.off + length vs ≤ length g.mem
    → min (g.len - g.off) (length vs) ≡ length vs
unfolding IsReady
copy_all vs g (e, h) l = ground arith

pub write_bytes-Appends : (vs : List ℕ) → Appends (write_bytes vs) vs
unfolding Appends write_bytes splice IsReady
write_bytes-Appends vs w h =
    let g = grow (length vs) w in
    let (r, e, b, l) = grow-IsReady (length vs) w h in
    let l' : g.off + length vs ≤ length g.mem = omega (arith, e, l) in
    let (ready, written) =
      Extends-Appends vs w g (splice vs g) r b (sym e) l' (splice-Extends vs g l') in
    let room : g.off ≤ g.len = omega (arith, r.0, l') in
    (
      splice vs g,
      rw (le→leb g.off g.len room, copy_all vs g r l', take-length vs) refl,
      ready,
      written,
    )

pub length-map_byte : (vs : List Bool) → length (map bool_byte vs) ≡ length vs
length-map_byte [] = refl
length-map_byte (v ∷ vs) = ap suc (length-map_byte vs)

pub write_bools-Appends : (vs : List Bool) → Appends (write_bools vs) (map bool_byte vs)
unfolding write_bools
write_bools-Appends vs =
    let bs = map bool_byte vs in
    subst (λ n. Appends (λ w. put_bytes bs (grow n w)) bs) (length-map_byte vs)
      (put_bytes-Appends bs)
