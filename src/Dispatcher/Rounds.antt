-- ===== src/Dispatcher/Rounds.antt =====
-- `roundRobinDispatch` of internal/dispatcher/route.go over many calls.
use due.Dispatcher.{DispatchRoute, ServiceEndpoint, chosen, nth, round_robin_dispatch, rounds, turn}
use due.Base.Words.{inc64}
use due.Errors.{ok}
use native.Mathlib.Nat.{mod-lt, mod-eq_of_lt, mod-add-div', add-mul-mod_self_right}
use due.Base.{
  Bool-cases, List, [], ap, arith, inl, inr, leb, leb→le, length, refl, some, suc, sym, zero, ℕ,
  ◌%◌, ◌*◌, ◌+◌, ◌-◌, ◌/◌, ◌<◌, ◌^◌, ◌∙◌, ◌∷◌, ◌≡◌,
}

-- Some number of `n` in a row has the remainder `i`.
remainder_reached : (c n i : ℕ) → i < n → (k : ℕ) × (k < n) × ((c + suc k) % n ≡ i)
remainder_reached c n i h =
    let m = suc c % n in
    let q = suc c / n in
    let d : suc c ≡ m + q * n = sym (mod-add-div' (suc c) n) in
    let l : m < n = mod-lt (suc c) (omega (arith, h)) in
    let small : i % n ≡ i = mod-eq_of_lt h in
    elim (Bool-cases (leb m i)) [
      | inl e ↦
          let le = leb→le m i e in
          let s : c + suc (i - m) ≡ i + q * n = omega (arith, d, le) in
          (i - m, omega (arith, h), rw (s, add-mul-mod_self_right i q n) small)
      | inr e ↦
          let lt : i < m = ground arith in
          let s : c + suc (i + n - m) ≡ i + suc q * n = omega (arith, d, l, lt) in
          (i + n - m, omega (arith, l, lt), rw (s, add-mul-mod_self_right i (suc q) n) small)
    ]

module _ {E : Type 0} where
  -- The route after `k` calls.
  pub calls : ℕ → DispatchRoute E → DispatchRoute E
  calls zero r = r
  calls (suc k) r = (round_robin_dispatch (calls k r)).1

  round_robin-work :
      (r : DispatchRoute E) (x : ServiceEndpoint E) (xs : List (ServiceEndpoint E))
      → r.abstract.endpoints1 ≡ x ∷ xs
      → round_robin_dispatch r ≡ (ok (turn (x ∷ xs) r).0, (turn (x ∷ xs) r).1)
  unfolding round_robin_dispatch
  round_robin-work r x xs e = ap (λ es. rounds es r.abstract.endpoints2 r) e

  -- What the working endpoints are is kept, and a call counts one on.
  calls-counter :
      (k : ℕ) (r : DispatchRoute E) (x : ServiceEndpoint E) (xs : List (ServiceEndpoint E))
      → r.abstract.endpoints1 ≡ x ∷ xs
      → r.counter + k < 2 ^ 64
      → ((calls k r).abstract.endpoints1 ≡ x ∷ xs) × ((calls k r).counter ≡ r.counter + k)
  unfolding calls round_robin_dispatch turn
  calls-counter zero r x xs e h = (e, omega arith)
  calls-counter (suc k) r x xs e h =
      let (e', c) = calls-counter k r x xs e (omega (arith, h)) in
      let w = ap (λ p. p.1) (round_robin-work (calls k r) x xs e') in
      (ap (λ s. s.abstract.endpoints1) w ∙ e', ap (λ s. s.counter) w ∙ omega (arith, c, h))

  -- The result of the call after `k` calls is the endpoint under the counter's remainder.
  calls_result :
      (k : ℕ) (r : DispatchRoute E) (x : ServiceEndpoint E) (xs : List (ServiceEndpoint E))
      → r.abstract.endpoints1 ≡ x ∷ xs
      → r.counter + suc k < 2 ^ 64
      → (round_robin_dispatch (calls k r)).0
        ≡ ok (chosen (nth ((r.counter + suc k) % length (x ∷ xs)) (x ∷ xs)))
  unfolding turn
  calls_result k r x xs e h =
      let (e', c) = calls-counter k r x xs e (omega (arith, h)) in
      let i : inc64 (calls k r).counter ≡ r.counter + suc k = omega (arith, c, h) in
      ap (λ p. p.0) (round_robin-work (calls k r) x xs e')
      ∙ ap (λ j. ok (chosen (nth (j % length (x ∷ xs)) (x ∷ xs)))) i

  nth-some :
      (i : ℕ) (es : List (ServiceEndpoint E))
      → i < length es
      → (se : ServiceEndpoint E) × (nth i es ≡ some se)
  nth-some i [] h = absurd (omega arith)
  nth-some zero (x ∷ xs) h = (x, refl)
  nth-some (suc i) (x ∷ xs) h = nth-some i xs (omega arith)

  -- Among as many round-robin calls in a row as there are working endpoints each of them is chosen:
  -- for any place of the list, one of these calls answers the endpoint that stands there, as long
  -- as the 64-bit counter does not wrap around.
  pub round_robin-fair :
      (r : DispatchRoute E) (es : List (ServiceEndpoint E)) (i : ℕ)
      → r.abstract.endpoints1 ≡ es
      → i < length es
      → r.counter + length es < 2 ^ 64
      → (k : ℕ) × (se : ServiceEndpoint E) × (k < length es)
        × (nth i es ≡ some se)
        × ((round_robin_dispatch (calls k r)).0 ≡ ok (some se.endpoint))
  round_robin-fair r [] i e h b = absurd (omega (arith, h))
  round_robin-fair r (x ∷ xs) i e h b =
      let (k, l, m) = remainder_reached r.counter (length (x ∷ xs)) i h in
      let (se, n) = nth-some i (x ∷ xs) h in
      (
        k,
        se,
        l,
        n,
        calls_result k r x xs e (omega (arith, l, b))
            ∙ ap (λ j. ok (chosen (nth j (x ∷ xs)))) m
            ∙ ap (λ o. ok (chosen o)) n,
      )
