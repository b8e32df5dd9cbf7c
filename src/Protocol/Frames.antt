-- ===== src/Protocol/Frames.antt =====
-- How the frames of internal/transporter/internal/protocol are put together and taken apart.
use due.Base.{
  List, Option, [], ap, append-nil, append_assoc, arith, refl, subst, sym, ℕ, ◌%◌, ◌++◌, ◌<◌, ◌^◌,
  ◌∙◌, ◌∷◌, ◌≡◌,
}
use due.Buffer.Order.{big, put}
use due.Buffer.Reader.{Read, and_then, read_int64, read_uint16, read_uint64, read_uint8}
use due.Buffer.Writer.{Writer, bytes}
use due.Buffer.Writer.Appends.{Appends}
use due.Protocol.{run}
use due.Errors.{ok}
use due.Buffer.Reader.Reads.{IsAt, Reads, read_word-Reads}

unfoldable pub concat : List (List ℕ) → List ℕ
concat [] = []
concat (x ∷ []) = x
concat (x ∷ (y ∷ ys)) = x ++ concat (y ∷ ys)

unfoldable pub Each : List (Writer → Option Writer) → List (List ℕ) → Type 0
Each [] [] = Unit
Each [] (x ∷ xs) = ⊥
Each (m ∷ ms) [] = ⊥
Each (m ∷ ms) (x ∷ xs) = Appends m x × Each ms xs

pub concat-cons : (x : List ℕ) (xs : List (List ℕ)) → concat (x ∷ xs) ≡ x ++ concat xs
unfolding concat
concat-cons x [] = sym (append-nil x)
concat-cons x (y ∷ ys) = refl

-- Operations that append, one after the other, append all in their order.
pub run-Appends :
    (ms : List (Writer → Option Writer)) (bss : List (List ℕ))
    → Each ms bss
    → Appends (run ms) (concat bss)
unfolding run Each Appends concat
run-Appends [] [] h w r = (w, refl, r, sym (append-nil (bytes w)))
run-Appends [] (x ∷ xs) h w r = absurd h
run-Appends (m ∷ ms) [] h w r = absurd h
run-Appends (m ∷ ms) (x ∷ xs) h w r =
    let (v, e, ready, written) = h.0 w r in
    let (u, e', ready', written') = run-Appends ms xs h.1 v ready in
    (
      u,
      rw (e, run) e',
      ready',
      written'
          ∙ ap (λ ys. ys ++ concat xs) written
          ∙ append_assoc (bytes w) x (concat xs)
          ∙ ap (λ ys. bytes w ++ ys) (sym (concat-cons x xs)),
    )

-- A read and then what follows it.
pub then-Reads {ℓ κ} :
    {A : Type ℓ} {B : Type κ} (m : Read A) (f : A → Read B) (xs ys : List ℕ) (a : A) (b : B)
    → Reads m xs a
    → Reads (f a) ys b
    → Reads (λ r. and_then (m r) f) (xs ++ ys) b
unfolding Reads
then-Reads m f xs ys a b h k r rest at =
    let (r', e, at') = h r (ys ++ rest) (subst (λ zs. IsAt zs r) (append_assoc xs ys rest) at) in
    let (r'', e', at'') = k r' rest at' in (r'', rw (e) e', at'')

pub return-Reads {ℓ} : {A : Type ℓ} (a : A) → Reads (λ r. (ok a, r)) [] a
unfolding Reads
return-Reads a r rest at = (r, refl, at)

pub read_uint64-Reads : (v : ℕ) → v < 256 ^ 8 → Reads (read_uint64 big) (put big 8 v) v
unfolding read_uint64
read_uint64-Reads v h = read_word-Reads big 8 v h

pub read_int64-Reads : (v : ℕ) → v < 256 ^ 8 → Reads (read_int64 big) (put big 8 v) v
unfolding read_int64 read_uint64
read_int64-Reads v h = read_word-Reads big 8 v h

pub read_uint16-Reads : (v : ℕ) → v < 256 ^ 2 → Reads (read_uint16 big) (put big 2 v) v
unfolding read_uint16
read_uint16-Reads v h = read_word-Reads big 2 v h

pub read_uint8-Reads : (v : ℕ) → v < 256 → Reads read_uint8 (v ∷ []) v
unfolding read_uint8 put
read_uint8-Reads v h =
    let e : v % 256 ≡ v = omega arith in
    subst (λ b. Reads read_uint8 (b ∷ []) v) e (read_word-Reads big 1 v (omega arith))
