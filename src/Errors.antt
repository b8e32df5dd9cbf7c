-- ===== src/Errors.antt =====
-- errors/errors.go and the error values of session/ownership.go: the errors that the modelled
-- operations return, and Go's pair of a value and an error as a sum.
use due.Base.{inl, inr, refl, ℕ, ◌≡◌, ◌⊎◌}

pub data Error : Type 0 where
  invalid_argument not_found_session invalid_session_kind stale_session : Error
  ownership_generation_exhausted : Error
  invalid_message unexpected_eof negative_position route_overflow seq_overflow message_too_large :
      Error
  not_found_endpoint not_found_route not_found_event : Error
  eof : Error
  illegal_operation not_found_actor actor_exists missing_dispatch_strategy : Error
  unregister_route not_bind_actor : Error
  generation_range_required invalid_generation_range : Error
  -- An error that code outside the model made, told apart by a number.
  foreign : ℕ → Error

pub data Result {ℓ} (A : Type ℓ) : Type ℓ where
  ok : A → Result A
  err : Error → Result A

-- `if err != nil { return err }` after a call.
infixl 5 ◌>>=◌
abbrev pub ◌>>=◌ {ℓ κ} : {A : Type ℓ} {B : Type κ} → Result A → (A → Result B) → Result B
err e >>= f = err e
ok a >>= f = f a

pub Result-cases {ℓ} :
    {A : Type ℓ} (r : Result A) → ((e : Error) × (r ≡ err e)) ⊎ ((a : A) × (r ≡ ok a))
Result-cases (ok a) = inr (a, refl)
Result-cases (err e) = inl (e, refl)
