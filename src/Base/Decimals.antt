-- ===== src/Base/Decimals.antt =====
-- Numbers as decimal text, a list of the bytes of its digits: strconv.FormatUint and ParseUint.
use Prim.Native.Nat.{ℕ, zero, suc, ◌+◌, ◌-◌, ◌*◌, ◌/◌, ◌%◌, ◌^◌, ◌<◌, ◌≤◌}
use mathlib.Core.Path.{◌≡◌, refl, sym, ap, subst}
use mathlib.Core.Bool.{Bool, true, false, not, ◌&&◌}
use mathlib.Core.Option.{Option, none, some}
use mathlib.Core.Logic.{inl, inr, ◌↔◌}
use mathlib.Core.List.{List, [], ◌∷◌, ◌++◌}
use native.Mathlib.Omega.{arith}
use native.Mathlib.Nat.{add-mul, pow-suc, mul-le-mul_right}
use due.Base.Tests.{Bool-cases, eqb, if◌then◌else◌, leb, ltb, ltb→lt}
use due.Base.Lists.{length}

abbrev pub Text : Type 0
Text = List ℕ

unfoldable pub digits : ℕ → ℕ → Text
digits zero n = []
digits (suc k) n = elim (ltb n 10) [
  | true ↦ (48 + n) ∷ []
  | false ↦ digits k (n / 10) ++ ((48 + n % 10) ∷ [])
]

-- As many rounds as the number is large are more than its digits.
unfoldable pub format_uint : ℕ → Text
unfolding digits
format_uint n = digits (suc n) n

unfoldable pub value_from : ℕ → Text → ℕ
value_from acc [] = acc
value_from acc (b ∷ bs) = value_from (acc * 10 + (b - 48)) bs

unfoldable pub value : Text → ℕ
unfolding value_from
value t = value_from 0 t

abbrev pub is_digit : ℕ → Bool
is_digit b = leb 48 b && leb b 57

unfoldable pub all_digits : Text → Bool
all_digits [] = true
all_digits (b ∷ bs) = is_digit b && all_digits bs

-- `strconv.ParseUint(t, 10, 63)`.
unfoldable pub parse_uint : Text → Option ℕ
unfolding value
parse_uint [] = none
parse_uint (b ∷ bs) =
    if all_digits (b ∷ bs) && ltb (value (b ∷ bs)) (2 ^ 63) then some (value (b ∷ bs)) else none

-- Digits, and no zero in front of others.
unfoldable pub is_canonical : Text → Bool
is_canonical [] = false
is_canonical (b ∷ []) = is_digit b
is_canonical (b ∷ (c ∷ cs)) = not (eqb b 48) && all_digits (b ∷ (c ∷ cs))

value_from-split : (acc : ℕ) (t : Text) → value_from acc t ≡ acc * 10 ^ length t + value_from 0 t
unfolding value_from
value_from-split acc [] = omega arith
value_from-split acc (b ∷ bs) =
    let d = b - 48 in
    let scale = 10 ^ length bs in
    let p = ap (λ x. acc * x) (pow-suc 10 (length bs)) in
    let left : value_from acc (b ∷ bs) ≡ (acc * 10 + d) * scale + value_from 0 bs =
      value_from-split (acc * 10 + d) bs in
    let right : value_from 0 (b ∷ bs) ≡ (0 * 10 + d) * scale + value_from 0 bs =
      value_from-split (0 * 10 + d) bs in
    grind (arith, p, left, right, add-mul (acc * 10) d scale, add-mul (0 * 10) d scale)

pub value-cons : (b : ℕ) (t : Text) → value (b ∷ t) ≡ (b - 48) * 10 ^ length t + value t
unfolding value value_from
value-cons b t =
    let e : value_from 0 (b ∷ t) ≡ (0 * 10 + (b - 48)) * 10 ^ length t + value_from 0 t =
      value_from-split (0 * 10 + (b - 48)) t in
    grind (arith, e)

pub value-bound : (t : Text) → all_digits t ≡ true → value t < 10 ^ length t
unfolding value all_digits value_from
value-bound [] h = omega arith
value-bound (b ∷ bs) h =
    let p = pow-suc 10 (length bs) in
    let digit : is_digit b ≡ true = ground (arith, h) in
    let small : b - 48 ≤ 9 = ground (arith, digit) in
    let rest = value-bound bs (ground (arith, h)) in
    let c = value-cons b bs in
    let top : (b - 48) * 10 ^ length bs ≤ 9 * 10 ^ length bs = mul-le-mul_right _ small in
    omega (arith, p, c, top, rest)

value_from-append :
    (acc : ℕ) (xs ys : Text) → value_from acc (xs ++ ys) ≡ value_from (value_from acc xs) ys
unfolding value_from
value_from-append acc [] ys = refl
value_from-append acc (x ∷ xs) ys = value_from-append (acc * 10 + (x - 48)) xs ys

digits_small : (k n : ℕ) → ltb n 10 ≡ true → digits (suc k) n ≡ (48 + n) ∷ []
unfolding digits
digits_small k n e = rw (e, digits) refl

digits_large :
    (k n : ℕ) → ltb n 10 ≡ false → digits (suc k) n ≡ digits k (n / 10) ++ ((48 + n % 10) ∷ [])
unfolding digits
digits_large k n e = rw (e, digits) refl

value-digits : (k n : ℕ) → n < k → value_from 0 (digits k n) ≡ n
unfolding value_from
value-digits zero n h = absurd (omega (arith, h))
value-digits (suc k) n h = elim (Bool-cases (ltb n 10)) [
  | inl e ↦ rw (digits_small k n e) (omega arith)
  | inr e ↦
      rw
        (
          digits_large k n e,
          value_from-append 0 (digits k (n / 10)) ((48 + n % 10) ∷ []),
          value-digits k (n / 10) (ground (arith, e, h)),
        )
        (omega arith)
]

pub value-format_uint : (n : ℕ) → value (format_uint n) ≡ n
unfolding value format_uint
value-format_uint n = value-digits (suc n) n (omega arith)

all_digits-append :
    (xs ys : Text) → all_digits xs ≡ true → all_digits ys ≡ true → all_digits (xs ++ ys) ≡ true
unfolding all_digits
all_digits-append [] ys h k = k
all_digits-append (x ∷ xs) ys h k = ground (arith, all_digits-append xs ys)

-- The digits of a number other than 0 start with one other than 0.
abbrev Leads : Text → Type 0
Leads [] = ⊥
Leads (b ∷ bs) = (48 < b) × (b ≤ 57)

Leads-append : (xs ys : Text) → Leads xs → Leads (xs ++ ys)
Leads-append [] ys h = absurd h
Leads-append (x ∷ xs) ys h = h

digits-good : (k n : ℕ) → n < k → 0 < n → Leads (digits k n) × (all_digits (digits k n) ≡ true)
unfolding all_digits
digits-good zero n h l = absurd (omega (arith, h))
digits-good (suc k) n h l = elim (Bool-cases (ltb n 10)) [
  | inl e ↦
      rw (digits_small k n e) (
        (omega (arith, ltb→lt n 10 e), omega (arith, ltb→lt n 10 e)),
        ground (arith, ltb→lt n 10 e),
      )
  | inr e ↦
      let (lead, all) = digits-good k (n / 10) (ground (arith, e, h)) (ground (arith, e)) in
      rw (digits_large k n e) (
        Leads-append (digits k (n / 10)) ((48 + n % 10) ∷ []) lead,
        all_digits-append (digits k (n / 10)) ((48 + n % 10) ∷ []) all (ground arith),
      )
]

Leads-is_canonical : (t : Text) → Leads t → all_digits t ≡ true → is_canonical t ≡ true
unfolding is_canonical all_digits
Leads-is_canonical [] l h = absurd l
Leads-is_canonical (b ∷ []) l h = ground (arith, l, h)
Leads-is_canonical (b ∷ (c ∷ cs)) l h = ground (arith, l, h)

pub is_canonical-format_uint : (n : ℕ) → is_canonical (format_uint n) ≡ true
unfolding format_uint digits is_canonical
is_canonical-format_uint n = elim (Bool-cases (eqb n 0)) [
  | inl e ↦
      let z : n ≡ 0 = ground (arith, e) in
      subst (λ m. is_canonical (digits (suc m) m) ≡ true) (sym z) refl
  | inr e ↦
      let (lead, all) = digits-good (suc n) n (omega arith) (ground (arith, e)) in
      Leads-is_canonical (digits (suc n) n) lead all
]

-- Text by bytes, as Lua compares it.
unfoldable pub text_less : Text → Text → Bool
text_less [] [] = false
text_less [] (y ∷ ys) = true
text_less (x ∷ xs) [] = false
text_less (x ∷ xs) (y ∷ ys) =
    let rest = text_less xs ys in if ltb x y then true else if ltb y x then false else rest

unfoldable pub text_eq : Text → Text → Bool
text_eq [] [] = true
text_eq [] (y ∷ ys) = false
text_eq (x ∷ xs) [] = false
text_eq (x ∷ xs) (y ∷ ys) = eqb x y && text_eq xs ys

pub text_eq_iff : (s t : Text) → (text_eq s t ≡ true) ↔ (s ≡ t)
unfolding text_eq
text_eq_iff [] [] = (λ h. refl, λ h. refl)
text_eq_iff [] (y ∷ ys) = ground arith
text_eq_iff (x ∷ xs) [] = ground arith
text_eq_iff (x ∷ xs) (y ∷ ys) = ground (arith, text_eq_iff xs ys)
