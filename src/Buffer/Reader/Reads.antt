-- ===== src/Buffer/Reader/Reads.antt =====
-- core/buffer/reader.go on what core/buffer/writer.go wrote.
use due.Base.{
  All, Bool, List, [], ap, ap₂, arith, drop, drop-add, drop-append_length, eqb, false, leb, length,
  length-append, length-drop, le→ltb, map, refl, subst, sym, take, take-append_length, true, ℕ, ◌*◌,
  ◌++◌, ◌+◌, ◌<◌, ◌^◌, ◌∙◌, ◌∷◌, ◌≡◌, ◌≤◌,
}
use due.Buffer.Reader.{
  Read, Reader, and_then, read_bools, read_bytes, read_some, read_string, read_uint8s, read_word,
  read_words, slice, slices, split_words,
}
use due.Errors.{ok}
use due.Buffer.Writer.Appends.{length-map_byte, length-words, words}
use due.Buffer.Order.{ByteOrder, get, get-put, length-put, put}
use due.Buffer.Writer.{bool_byte}

-- The reader stands in front of `rest`.
unfoldable pub IsAt : List ℕ → Reader → Type 0
IsAt rest r = (r.off ≤ length r.buf) × (drop r.off r.buf ≡ rest)

-- In front of `bs` the operation returns `a` and moves behind them.
unfoldable pub Reads {ℓ} : {A : Type ℓ} → Read A → List ℕ → A → Type ℓ
Reads m bs a =
    (r : Reader) (rest : List ℕ)
    → IsAt (bs ++ rest) r
    → (r' : Reader) × (m r ≡ (ok a, r')) × IsAt rest r'

slices-Reads : (b n : ℕ) (bs : List ℕ) → length bs ≡ b * n → Reads (slices b n) bs bs
unfolding Reads slices IsAt
slices-Reads b n bs e r rest (h, d) =
    let l = length-drop r.off r.buf in
    let l' = ap length d ∙ length-append bs rest in
    let room : r.off + b * n ≤ length r.buf = omega (arith, l, l', e) in
    (
      record r { off = r.off + b * n },
      rw (le→ltb (length r.buf) (r.off + b * n) room, d, sym e, take-append_length bs rest) refl,
      (room, rw (drop-add r.off (b * n) r.buf, d, sym e) (drop-append_length bs rest)),
    )

-- What follows a call that succeeds.
pub and_then-Reads {ℓ κ} :
    {A : Type ℓ} {B : Type κ} (m : Read A) (f : A → B) (bs : List ℕ) (a : A)
    → Reads m bs a
    → Reads (λ r. and_then (m r) (λ x r'. (ok (f x), r'))) bs (f a)
unfolding Reads
and_then-Reads m f bs a h r rest at = let (r', e, at') = h r rest at in (r', rw (e) refl, at')

pub slice-Reads : (b : ℕ) (bs : List ℕ) → length bs ≡ b → Reads (slice b) bs bs
unfolding slice
slice-Reads b bs e = slices-Reads b 1 bs (omega (arith, e))

pub read_word-Reads : (o : ByteOrder) (k v : ℕ) → v < 256 ^ k → Reads (read_word o k) (put o k v) v
unfolding read_word
read_word-Reads o k v h = subst (Reads (read_word o k) (put o k v)) (get-put o k v h) (
    and_then-Reads (slice k) (get o) (put o k v) (put o k v)
      (slice-Reads k (put o k v) (length-put o k v)))

split_words-words :
    (o : ByteOrder) (k : ℕ) (vs : List ℕ)
    → All (λ v. v < 256 ^ k) vs
    → split_words o k (length vs) (words o k vs) ≡ vs
split_words-words o k [] h = refl
split_words-words o k (v ∷ vs) h =
    let bs = put o k v in
    let rest = words o k vs in
    let l = length-put o k v in
    let front = subst (λ n. take n (bs ++ rest) ≡ bs) l (take-append_length bs rest) in
    let back = subst (λ n. drop n (bs ++ rest) ≡ rest) l (drop-append_length bs rest) in
    ap₂ (◌∷◌) (ap (get o) front ∙ get-put o k v h.0)
      (ap (split_words o k (length vs)) back ∙ split_words-words o k vs h.1)

pub read_words-Reads :
    (o : ByteOrder) (k : ℕ) (vs : List ℕ)
    → All (λ v. v < 256 ^ k) vs
    → Reads (read_words o k (length vs)) (words o k vs) vs
unfolding read_words
read_words-Reads o k vs h =
    subst (Reads (read_words o k (length vs)) (words o k vs)) (split_words-words o k vs h) (
      and_then-Reads (slices k (length vs)) (split_words o k (length vs)) (words o k vs)
        (words o k vs) (slices-Reads k (length vs) (words o k vs) (length-words o k vs)))

-- The guard on a count of 0 answers what the loop would.
pub read_some-Reads :
    (o : ByteOrder) (k : ℕ) (vs : List ℕ)
    → All (λ v. v < 256 ^ k) vs
    → Reads (read_some o k (length vs)) (words o k vs) vs
unfolding read_some Reads
read_some-Reads o k [] h r rest at = (r, refl, at)
read_some-Reads o k (v ∷ vs) h r rest at =
    let (r', e, at') = read_words-Reads o k (v ∷ vs) h r rest at in (r', ground arith, at')

pub read_uint8s-Reads : (vs : List ℕ) → Reads (read_uint8s (length vs)) vs vs
unfolding read_uint8s Reads
read_uint8s-Reads [] r rest at = (r, refl, at)
read_uint8s-Reads (v ∷ vs) r rest at =
    let (r', e, at') = slices-Reads 1 (length (v ∷ vs)) (v ∷ vs) (omega arith) r rest at in
    (r', ground arith, at')

pub read_bytes-Reads : (vs : List ℕ) → Reads (read_bytes (length vs)) vs vs
unfolding read_bytes Reads
read_bytes-Reads [] r rest at = (r, refl, at)
read_bytes-Reads (v ∷ vs) r rest at =
    let (r', e, at') = slices-Reads 1 (length (v ∷ vs)) (v ∷ vs) (omega arith) r rest at in
    (r', ground arith, at')

pub read_string-Reads : (str : List ℕ) → Reads (read_string (length str)) str str
unfolding read_string
read_string-Reads str =
    and_then-Reads (slice (length str)) (λ buf. buf) str str (slice-Reads (length str) str refl)

bools_back : (vs : List Bool) → map (λ b. eqb b 1) (map bool_byte vs) ≡ vs
bools_back [] = refl
bools_back (true ∷ vs) = ap (◌∷◌ true) (bools_back vs)
bools_back (false ∷ vs) = ap (◌∷◌ false) (bools_back vs)

pub read_bools-Reads : (vs : List Bool) → Reads (read_bools (length vs)) (map bool_byte vs) vs
unfolding read_bools Reads
read_bools-Reads [] r rest at = (r, refl, at)
read_bools-Reads (v ∷ vs) r rest at =
    let bs = map bool_byte (v ∷ vs) in
    let n = length (v ∷ vs) in
    let l = length-map_byte (v ∷ vs) in
    let (r', e, at') = slices-Reads 1 n bs (omega (arith, l)) r rest at in
    let test : leb n 0 ≡ false = ground arith in (r', rw (test, e, bools_back (v ∷ vs)) refl, at')
