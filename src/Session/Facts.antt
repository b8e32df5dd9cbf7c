-- ===== src/Session/Facts.antt =====
-- The parts of a session's state that a method leaves alone, and case rules for its tests.
use due.Base.{
  ==_ne, Bool-cases, Option-cases, arith, eqb_iff, false, inl, inr, some, true, ℕ, ℕ_discrete, ◌≡◌,
  ◌≢◌, nat_eq,
}
use due.Base.Dict.{erase, lookup}
use due.Errors.{ok}
use due.Session.{
  Session, Token, bind, bind_external, bind_token, get_conn, invalid_token, is_owner,
  next_generation, raise_generation, set_uid, unbind,
}

module _ (s : Session) where
  pub lookup-is_owner : (u r : ℕ) → is_owner s u r ≡ true → lookup u s.users ≡ some r
  lookup-is_owner u r h = ground arith

  pub is_owner-lookup : (u r : ℕ) → lookup u s.users ≡ some r → is_owner s u r ≡ true
  is_owner-lookup u r h = ground arith

-- What a method may have done to the state, for a predicate on states: nothing, or its effect.
module _ {ℓ} (P : Session → Type ℓ) (s : Session) where
  pub bind_cases :
      (cid uid : ℕ)
      → P s
      → ((r : ℕ)
          → lookup cid s.conns ≡ some r
          → (s.heap r).uid ≢ uid
          → P (
              bind_token
                (next_generation s uid).1
                r
                uid
                (record { uid = uid; generation = (next_generation s uid).0 })))
      → P (bind s cid uid).1
  unfolding bind get_conn
  bind_cases cid uid stays moves = elim (Option-cases (lookup cid s.conns)) [
    | inl e ↦ rw (e, bind, get_conn) stays
    | inr (r, e) ↦ elim (ℕ_discrete (s.heap r).uid uid) [
      | yes same ↦ rw (e, bind, get_conn) (rw ((eqb_iff _ _).1 same) stays)
      | no ne ↦ rw (e, bind, get_conn) (rw (==_ne _ _ ne) (moves r e ne))
    ]
  ]

  pub bind_external_cases :
      (cid uid : ℕ) (token : Token)
      → P s
      → ((r : ℕ)
          → lookup cid s.conns ≡ some r
          → uid ≢ 0
          → token.uid ≡ uid
          → token.generation ≢ 0
          → P (raise_generation (bind_token s r uid token) uid token.generation))
      → P (bind_external s cid uid token).1
  unfolding bind_external get_conn
  bind_external_cases cid uid token stays binds = elim (Bool-cases (invalid_token uid token)) [
    | inl bad ↦ rw (bad, bind_external) stays
    | inr good ↦ elim (Option-cases (lookup cid s.conns)) [
      | inl e ↦ rw (good, e, bind_external, get_conn) stays
      | inr (r, e) ↦
          rw (good, e, bind_external, get_conn)
            (binds r e (ground arith) (ground arith) (ground arith))
    ]
  ]

  pub unbind_cases :
      (uid : ℕ)
      → P s
      → ((r : ℕ)
          → lookup uid s.users ≡ some r
          → P (record (set_uid s r 0) { users = erase uid s.users }))
      → P (unbind s uid).1
  unfolding unbind get_conn
  unbind_cases uid stays leaves = elim (Option-cases (lookup uid s.users)) [
    | inl e ↦ rw (e, unbind, get_conn) stays
    | inr (r, e) ↦ rw (e, unbind, get_conn) (leaves r e)
  ]

pub bind_moves :
    (s : Session) (cid uid r : ℕ)
    → lookup cid s.conns ≡ some r
    → (s.heap r).uid ≢ uid
    → bind s cid uid ≡ (
      ok tt,
      bind_token
          (next_generation s uid).1
          r
          uid
          (record { uid = uid; generation = (next_generation s uid).0 }),
    )
unfolding bind get_conn
bind_moves s cid uid r held moves = rw (held, bind, get_conn) (rw (==_ne _ _ moves))

-- When `BindToken` succeeds, and what it has done then.
pub bind_external_ok :
    (s : Session) (cid uid : ℕ) (token : Token)
    → (bind_external s cid uid token).0 ≡ ok tt
    → (r : ℕ) × (lookup cid s.conns ≡ some r)
      × (invalid_token uid token ≡ false)
      × ((bind_external s cid uid token).1
          ≡ raise_generation (bind_token s r uid token) uid token.generation)
unfolding bind_external get_conn
bind_external_ok s cid uid token h = elim (Bool-cases (invalid_token uid token)) [
  | inl bad ↦ cc (rw (bad, bind_external) at h)
  | inr good ↦ elim (Option-cases (lookup cid s.conns)) [
    | inl e ↦ cc (rw (good, e, bind_external, get_conn) at h)
    | inr (r, e) ↦ (r, e, good, rw (good, e, bind_external, get_conn))
  ]
]
