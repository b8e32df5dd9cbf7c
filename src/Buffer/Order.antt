-- ===== src/Buffer/Order.antt =====
-- The byte orders of encoding/binary, which core/buffer and packet write and read by.
use due.Base.{
  All, All-append, List, [], arith, length, length-append, refl, suc, zero, ℕ, ◌%◌, ◌*◌, ◌++◌, ◌+◌,
  ◌/◌, ◌<◌, ◌^◌, ◌∙◌, ◌∷◌, ◌≡◌,
}
use native.Mathlib.Nat.{pow-suc}

pub data ByteOrder : Type 0 where
  big little : ByteOrder

-- The `k` lowest bytes of `v`, the highest first.
pub put_big : ℕ → ℕ → List ℕ
put_big zero v = []
put_big (suc k) v = put_big k (v / 256) ++ (v % 256 ∷ [])

pub put_little : ℕ → ℕ → List ℕ
put_little zero v = []
put_little (suc k) v = v % 256 ∷ put_little k (v / 256)

pub get_big : ℕ → List ℕ → ℕ
get_big acc [] = acc
get_big acc (b ∷ bs) = get_big (acc * 256 + b) bs

pub get_little : List ℕ → ℕ
get_little [] = 0
get_little (b ∷ bs) = b + 256 * get_little bs

-- `order.PutUint16` and its kin, by the number of bytes.
unfoldable pub put : ByteOrder → ℕ → ℕ → List ℕ
unfolding put_big put_little
put big k v = put_big k v
put little k v = put_little k v

-- `order.Uint16` and its kin.
unfoldable pub get : ByteOrder → List ℕ → ℕ
unfolding get_big get_little
get big bs = get_big 0 bs
get little bs = get_little bs

pub length-put : (o : ByteOrder) (k v : ℕ) → length (put o k v) ≡ k
unfolding put
length-put big zero v = refl
length-put big (suc k) v =
    omega (arith, length-append (put_big k (v / 256)) (v % 256 ∷ []), length-put big k (v / 256))
length-put little zero v = refl
length-put little (suc k) v = omega (arith, length-put little k (v / 256))

pub put-IsByte : (o : ByteOrder) (k v : ℕ) → All (λ b. b < 256) (put o k v)
unfolding put
put-IsByte big zero v = tt
put-IsByte big (suc k) v = All-append (λ b. b < 256) _ _ (put-IsByte big k (v / 256)) (omega arith)
put-IsByte little zero v = tt
put-IsByte little (suc k) v = (omega arith, put-IsByte little k (v / 256))

get_big-append :
    (acc : ℕ) (xs : List ℕ) (b : ℕ) → get_big acc (xs ++ (b ∷ [])) ≡ get_big acc xs * 256 + b
unfolding get_big
get_big-append acc [] b = refl
get_big-append acc (x ∷ xs) b = get_big-append (acc * 256 + x) xs b

div_fits : (k v : ℕ) → v < 256 ^ suc k → v / 256 < 256 ^ k
div_fits k v h = let e = pow-suc 256 k in omega (arith, e)

-- A word that fits the width is read back from its bytes, in either order.
pub get-put : (o : ByteOrder) (k v : ℕ) → v < 256 ^ k → get o (put o k v) ≡ v
unfolding get put
get-put big zero v h = omega arith
get-put big (suc k) v h =
    get_big-append 0 (put_big k (v / 256)) (v % 256)
    ∙ omega (arith, get-put big k (v / 256) (div_fits k v h))
get-put little zero v h = omega arith
get-put little (suc k) v h = omega (arith, get-put little k (v / 256) (div_fits k v h))
