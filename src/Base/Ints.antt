-- ===== src/Base/Ints.antt =====
-- Go's signed integers: the numbers themselves, and their two's complement on some bytes.
use Prim.Native.Nat.{ℕ, suc, ◌-◌, ◌*◌, ◌%◌, ◌^◌, ◌<◌, ◌≤◌}
use mathlib.Core.Path.{◌≡◌, refl}
use mathlib.Core.Bool.{false}
use native.Mathlib.Omega.{arith}
use native.Mathlib.Nat.{mod-lt, mod-eq_of_lt}
use due.Base.Tests.{if◌then◌else◌, ltb, lt→ltb, le→ltb}

-- `negsuc n` is `-n - 1`.
pub data ℤ : Type 0 where
  pos negsuc : ℕ → ℤ

-- Whether the number is one of a signed type of `k` bytes.
abbrev pub InRange : ℕ → ℤ → Type 0
InRange k (pos n) = 2 * n < 256 ^ k
InRange k (negsuc n) = 2 * suc n ≤ 256 ^ k

-- `int8(v)` and its kin, as the bits that are kept.
unfoldable pub pattern_of : ℕ → ℤ → ℕ
pattern_of k (pos n) = n % 256 ^ k
pattern_of k (negsuc n) = 256 ^ k - suc (n % 256 ^ k)

-- The number with the bits of a signed type of `k` bytes.
unfoldable pub signed : ℕ → ℕ → ℤ
signed k w = if ltb (2 * w) (256 ^ k) then pos w else negsuc (256 ^ k - suc w)

pub pattern_of-bound : (k : ℕ) (z : ℤ) → 0 < 256 ^ k → pattern_of k z < 256 ^ k
unfolding pattern_of
pattern_of-bound k (pos n) h = mod-lt n h
pattern_of-bound k (negsuc n) h = let m = mod-lt n h in omega (arith, m)

pub signed-pattern_of : (k : ℕ) (z : ℤ) → InRange k z → signed k (pattern_of k z) ≡ z
unfolding pattern_of signed
signed-pattern_of k (pos n) h =
    let e : n % 256 ^ k ≡ n = mod-eq_of_lt (omega (arith, h)) in
    rw (e, lt→ltb (2 * n) (256 ^ k) h) refl
signed-pattern_of k (negsuc n) h =
    let e : n % 256 ^ k ≡ n = mod-eq_of_lt (omega (arith, h)) in
    let big : ltb (2 * (256 ^ k - suc n)) (256 ^ k) ≡ false = le→ltb _ _ (omega (arith, h)) in
    let back : 256 ^ k - suc (256 ^ k - suc n) ≡ n = omega (arith, h) in rw (e, big, back) refl
