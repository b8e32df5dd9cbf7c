-- ===== src/Ownership/Redis/Numbers.antt =====
-- session/redis/script.go: the tests of the scripts on printed numbers.
use native.Mathlib.Nat.{pow-le-pow_right}
use due.Base.{
  Bool-cases, ap, arith, eqb, eqb_iff, inl, inr, length, ltb, refl, sym, true, ℕ, ◌-◌, ◌<◌, ◌^◌,
  ◌∙◌, ◌≡◌, ◌≤◌,
}
use due.Base.Decimals.{
  all_digits, digits, format_uint, is_canonical-format_uint, text_eq, text_eq_iff, value,
  value-format_uint, value_from,
}
use due.Ownership.Redis.Compare.{
  compare_text, compare_text-value, is_canonical-all_digits, is_canonical-large, order_of,
  text_less-value,
}
use due.Ownership.Redis.{is_valid, max_text, zero_text}

value_max : value max_text ≡ 9223372036854775807
unfolding value value_from
value_max = refl

all_max : all_digits max_text ≡ true
unfolding all_digits
all_max = refl

short_lem : (n : ℕ) → n < 2 ^ 63 → length (format_uint n) ≤ 19
short_lem n h =
    let t = format_uint n in
    let v = value-format_uint n in
    elim (Bool-cases (ltb 19 (length t))) [
      | inr e ↦ ground (arith, e)
      | inl e ↦
          let long : 19 ≤ length t - 1 = ground (arith, e) in
          let low = is_canonical-large t (is_canonical-format_uint n) (omega (arith, long)) in
          let mid : 10 ^ 19 ≤ 10 ^ (length t - 1) = pow-le-pow_right (omega arith) long in
          omega (arith, v, low, mid, h)
    ]

value_same : (m n : ℕ) → format_uint m ≡ format_uint n → m ≡ n
value_same m n e = sym (value-format_uint m) ∙ ap value e ∙ value-format_uint n

pub is_valid-format_uint : (n : ℕ) → n < 2 ^ 63 → is_valid (format_uint n) ≡ true
unfolding is_valid
is_valid-format_uint n h =
    let t = format_uint n in
    let c = is_canonical-format_uint n in
    let v = value-format_uint n in
    let short : length t ≤ 19 = short_lem n h in
    elim (Bool-cases (eqb (length t) 19)) [
      | inr e ↦ ground (arith, c, e, short)
      | inl e ↦
          let l =
            (text_less-value max_text t (sym ((eqb_iff (length t) 19).0 e)) all_max
              (is_canonical-all_digits t c)).0 in
          ground (arith, c, e, l, v, h, value_max)
    ]

pub compare_text-format_uint :
    (m n : ℕ) → compare_text (format_uint m) (format_uint n) ≡ order_of m n
compare_text-format_uint m n =
    rw
      (
        compare_text-value (format_uint m) (format_uint n) (is_canonical-format_uint m)
            (is_canonical-format_uint n),
        value-format_uint m,
        value-format_uint n,
      )
      refl

pub text_eq-format_uint : (m n : ℕ) → text_eq (format_uint m) (format_uint n) ≡ eqb m n
unfolding compare_text
text_eq-format_uint m n = ground (
  arith,
  compare_text-format_uint m n,
  text_eq_iff (format_uint m) (format_uint n),
  value_same m n,
)

pub zero_lem : zero_text ≡ format_uint 0
unfolding format_uint digits
zero_lem = refl
