-- ===== src/Ownership/Redis/Compare.antt =====
-- session/redis/script.go: the scripts compare decimal texts, never Lua's numbers.
use native.Mathlib.Nat.{mul-le-mul_right, add-mul, pow-le-pow_right}
use due.Base.{
  Bool-cases, [], arith, eqb, eqb_iff, if◌then◌else◌, inl, inr, length, ltb, ltb→lt, not, refl,
  some, subst, suc, sym, true, ℕ, ◌*◌, ◌+◌, ◌-◌, ◌<◌, ◌^◌, ◌∷◌, ◌≡◌, ◌≤◌,
}
use due.Base.Decimals.{
  Text, all_digits, format_uint, is_canonical, is_canonical-format_uint, parse_uint, text_eq,
  text_eq_iff, text_less, value, value-bound, value-cons, value-format_uint,
}

first_digit : (a b scale v w : ℕ) → a < b → v < scale → w < scale → a * scale + v < b * scale + w
first_digit a b scale v w h k l =
    let top : suc a * scale ≤ b * scale = mul-le-mul_right scale h in
    omega (arith, top, add-mul 1 a scale, k, l)

-- Digits of one length are ordered as their numbers.
pub text_less-value :
    (s t : Text)
    → length s ≡ length t
    → all_digits s ≡ true
    → all_digits t ≡ true
    → (text_less s t ≡ ltb (value s) (value t)) × (text_eq s t ≡ eqb (value s) (value t))
unfolding text_less text_eq all_digits value
text_less-value [] [] e h k = (refl, refl)
text_less-value [] (y ∷ ys) e h k = absurd (omega (arith, e))
text_less-value (x ∷ xs) [] e h k = absurd (omega (arith, e))
text_less-value (x ∷ xs) (y ∷ ys) e h k =
    let same : length ys ≡ length xs = omega (arith, e) in
    let scale = 10 ^ length xs in
    let cs = value-cons x xs in
    let ct = subst (λ n. value (y ∷ ys) ≡ (y - 48) * 10 ^ n + value ys) same (value-cons y ys) in
    let bs = value-bound xs (ground (arith, h)) in
    let bt = subst (λ n. value ys < 10 ^ n) same (value-bound ys (ground (arith, k))) in
    let (less, equal) = text_less-value xs ys (sym same) (ground (arith, h)) (ground (arith, k)) in
    let dx : (48 ≤ x) × (x ≤ 57) = ground (arith, h) in
    let dy : (48 ≤ y) × (y ≤ 57) = ground (arith, k) in
    elim (Bool-cases (ltb x y)) [
      | inl c ↦
          let f : (x - 48) * scale + value xs < (y - 48) * scale + value ys =
            first_digit (x - 48) (y - 48) scale (value xs) (value ys)
              (omega (arith, ltb→lt x y c, dx)) bs bt in
          ground (arith, f, cs, ct, c)
      | inr c ↦ elim (Bool-cases (ltb y x)) [
        | inl d ↦
            let f : (y - 48) * scale + value ys < (x - 48) * scale + value xs =
              first_digit (y - 48) (x - 48) scale (value ys) (value xs)
                (omega (arith, ltb→lt y x d, dy)) bt bs in
            ground (arith, f, cs, ct, c, d)
        | inr d ↦
            let q : y ≡ x = ground (arith, c, d) in
            let cq = subst (λ z. value (y ∷ ys) ≡ (z - 48) * scale + value ys) q ct in
            ground (arith, cs, cq, c, d, less, equal, q)
      ]
    ]

-- What `compare` answers: -1, 0 and 1.
pub data Order : Type 0 where
  before same after : Order

unfoldable pub compare_text : Text → Text → Order
compare_text a b =
    if not (eqb (length a) (length b))
    then if ltb (length a) (length b) then before else after
    else if text_eq a b
    then same
    else if text_less a b
    then before
    else after

abbrev pub order_of : ℕ → ℕ → Order
order_of m n = if ltb m n then before else if eqb m n then same else after

pub is_canonical-all_digits : (t : Text) → is_canonical t ≡ true → all_digits t ≡ true
unfolding is_canonical all_digits
is_canonical-all_digits [] h = ground arith
is_canonical-all_digits (b ∷ []) h = ground arith
is_canonical-all_digits (b ∷ (c ∷ cs)) h = ground arith

pub is_canonical-large :
    (t : Text) → is_canonical t ≡ true → 2 ≤ length t → 10 ^ (length t - 1) ≤ value t
unfolding is_canonical all_digits
is_canonical-large [] h l = absurd (omega (arith, l))
is_canonical-large (b ∷ []) h l = absurd (omega (arith, l))
is_canonical-large (b ∷ (c ∷ cs)) h l =
    let lead : 1 ≤ b - 48 = ground (arith, h) in
    let scale = 10 ^ length (c ∷ cs) in
    let top : 1 * scale ≤ (b - 48) * scale = mul-le-mul_right scale lead in
    let e : length (b ∷ (c ∷ cs)) - 1 ≡ length (c ∷ cs) = omega arith in
    subst (λ n. 10 ^ n ≤ value (b ∷ (c ∷ cs))) (sym e) (omega (arith, top, value-cons b (c ∷ cs)))

is_canonical-length : (t : Text) → is_canonical t ≡ true → 1 ≤ length t
unfolding is_canonical
is_canonical-length [] h = ground arith
is_canonical-length (b ∷ t) h = omega arith

shorter :
    (a b : Text)
    → is_canonical a ≡ true
    → is_canonical b ≡ true
    → length a < length b
    → value a < value b
shorter a b h k l =
    let n = is_canonical-length a h in
    let low = is_canonical-large b k (omega (arith, n, l)) in
    let high = value-bound a (is_canonical-all_digits a h) in
    let mid : 10 ^ length a ≤ 10 ^ (length b - 1) =
      pow-le-pow_right (omega arith) (omega (arith, l)) in
    omega (arith, low, high, mid)

-- On canonical decimals of any length, the comparison of the scripts, which looks at the lengths
-- and then at the bytes, answers what comparing the numbers answers.
pub compare_text-value :
    (a b : Text)
    → is_canonical a ≡ true
    → is_canonical b ≡ true
    → compare_text a b ≡ order_of (value a) (value b)
unfolding compare_text
compare_text-value a b h k =
    let all_a = is_canonical-all_digits a h in
    let all_b = is_canonical-all_digits b k in
    elim (Bool-cases (eqb (length a) (length b))) [
      | inl e ↦
          let (less, equal) =
            text_less-value a b ((eqb_iff (length a) (length b)).0 e) all_a all_b in
          rw (e, less, equal) (ground arith)
      | inr e ↦ elim (Bool-cases (ltb (length a) (length b))) [
        | inl l ↦ ground (arith, e, l, shorter a b h k (ltb→lt _ _ l))
        | inr l ↦
            let more : length b < length a = ground (arith, e, l) in
            ground (arith, e, l, shorter b a k h more)
      ]
    ]

-- Canonical decimals with one value are the same text.
pub is_canonical-injective :
    (a b : Text) → is_canonical a ≡ true → is_canonical b ≡ true → value a ≡ value b → a ≡ b
unfolding compare_text
is_canonical-injective a b h k e =
    let c = compare_text-value a b h k in (text_eq_iff a b).0 (ground (arith, c, e))

pub format_uint-value : (t : Text) → is_canonical t ≡ true → format_uint (value t) ≡ t
format_uint-value t h =
    is_canonical-injective (format_uint (value t)) t (is_canonical-format_uint (value t)) h
      (value-format_uint (value t))

pub parse_uint-canonical :
    (t : Text) → is_canonical t ≡ true → value t < 2 ^ 63 → parse_uint t ≡ some (value t)
unfolding parse_uint is_canonical
parse_uint-canonical [] h l = ground (arith, h)
parse_uint-canonical (b ∷ bs) h l = ground (arith, is_canonical-all_digits (b ∷ bs) h, l)
