-- ===== src/Ownership.antt =====
-- session/ownership.go: the store that says which session owns a user across all gates. `Context` is
-- what `ctx.Err()` answers when the call asks. The store is an interface; its laws are what the
-- comment on `OwnershipStore` demands and what the gate relies on.
pub mod Memory
pub mod Redis
use due.Base.{Bool, Option, none, some, true, ℕ, ◌<◌, ◌≡◌, ◌≢◌, ◌≤◌}
use due.Errors.{Error, Result, ok}
use due.Session.{Token}
use due.Base.Words.{is_positive64}

abbrev pub Context : Type 0
Context = Option Error

pub record OwnershipStore : Type 1 where
  pub State : Type 0
  pub acquire : Context → State → ℕ → Result Token × State
  pub current : Context → State → ℕ → Result (Option Token)
  pub release : Context → State → ℕ → Token → Result Bool × State
  -- The newest generation that was allocated for a user.
  pub allocated : State → ℕ → ℕ
  -- The states that the store can be in.
  pub IsValid : State → Type 0
  pub acquire_valid :
      (ctx : Context) (s : State) (uid : ℕ) → IsValid s → IsValid (acquire ctx s uid).1
  pub release_valid :
      (ctx : Context) (s : State) (uid : ℕ) (token : Token)
      → IsValid s
      → IsValid (release ctx s uid token).1
  -- A token is newer than all tokens before it, and owns its user.
  pub acquire_newer :
      (ctx : Context) (s : State) (uid : ℕ) (token : Token)
      → IsValid s
      → (acquire ctx s uid).0 ≡ ok token
      → (token.uid ≡ uid)
        × (allocated s uid < token.generation)
        × (token.generation ≤ allocated (acquire ctx s uid).1 uid)
        × (current none (acquire ctx s uid).1 uid ≡ ok (some token))
  -- A user of an identifier that is no positive number gets no token.
  pub acquire_positive :
      (ctx : Context) (s : State) (uid : ℕ) (token : Token)
      → (acquire ctx s uid).0 ≡ ok token
      → is_positive64 uid ≡ true
  -- A token that is given back owns its user no more.
  pub release_gone :
      (ctx : Context) (s : State) (uid : ℕ) (token : Token)
      → (release ctx s uid token).0 ≡ ok true
      → current none (release ctx s uid token).1 uid ≡ ok none
  pub release_other :
      (ctx : Context) (s : State) (uid u : ℕ) (token : Token)
      → uid ≢ u
      → current none (release ctx s uid token).1 u ≡ current none s u
  -- A context that is done fails the call and changes no answer.
  pub current_context :
      (ctx : Context) (s : State) (uid : ℕ) (answer : Option Token)
      → current ctx s uid ≡ ok answer
      → current none s uid ≡ ok answer
  pub acquire_grows :
      (ctx : Context) (s : State) (uid u : ℕ)
      → IsValid s
      → allocated s u ≤ allocated (acquire ctx s uid).1 u
  pub release_keeps :
      (ctx : Context) (s : State) (uid : ℕ) (token : Token) (u : ℕ)
      → allocated (release ctx s uid token).1 u ≡ allocated s u
