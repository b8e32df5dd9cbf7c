-- ===== src/Gate/Ownership/Soundness.antt =====
-- A gate stays sound while it binds a user, whatever others do meanwhile.
use Prim.Native.Nat.{max}
use due.Base.{Bool-cases, Option, arith, eqb, if◌then◌else◌, inl, inr, refl, ℕ, ◌≡◌, ◌≤◌}
use due.Errors.{Result, Result-cases, err, ok}
use due.Session.{Token, bind_external, bind_token, conn, token_of}
use due.Ownership.{Context, OwnershipStore}
use due.Gate.Ownership.{
  Contexts, Gate, Others, acquire_and_bind, bind_acquired, bind_session, check_and_bind, is_live,
  is_previous, is_same, keep_or_acquire, settle,
}
use due.Session.Facts.{bind_external_cases}
use due.Session.Numbering.{
  bind_external-IsNumbered, bind_token-generations, generation_of, raise_generation-max,
}
use due.Session.Consistent.{IsConsistent}
use due.Session.Invariant.{bind_external-IsBound}
use due.Session.Channels.Invariant.{bind_external-IsSubscribed}

module _ (store : OwnershipStore) where
  -- The gate's registry is consistent, the store is in a state of its own, and no local counter is
  -- ahead of the store.
  pub record IsSound (g : Gate store) : Type 0 where
    pub consistent : IsConsistent g.session
    pub valid : store.IsValid g.owners
    pub behind : (u : ℕ) → generation_of g.session u ≤ store.allocated g.owners u

  -- What others do keeps a sound gate sound and takes back no generation.
  pub record IsFair (f : Gate store → Gate store) : Type 0 where
    pub sound : (g : Gate store) → IsSound g → IsSound (f g)
    pub grows :
        (g : Gate store) (u : ℕ)
        → IsSound g
        → store.allocated g.owners u ≤ store.allocated (f g).owners u

  pub record AreFair (o : Others store) : Type 0 where
    pub fair_check : IsFair o.before_check
    pub fair_current : IsFair o.before_current
    pub fair_acquire : IsFair o.before_acquire
    pub fair_bind : IsFair o.before_bind
    pub fair_release : IsFair o.before_release

  -- One call on a sound gate.
  module _ (g : Gate store) (v : IsSound g) where
    pub acquired-IsSound :
        (c : Context) (uid : ℕ) → IsSound (record g { owners = (store.acquire c g.owners uid).1 })
    acquired-IsSound c uid = record {
      consistent = v.consistent;
      valid = store.acquire_valid c g.owners uid v.valid;
      behind = λ u. omega (arith, v.behind u, store.acquire_grows c g.owners uid u v.valid);
    }

    released-IsSound :
        (c : Context) (uid : ℕ) (token : Token)
        → IsSound (record g { owners = (store.release c g.owners uid token).1 })
    released-IsSound c uid token = record {
      consistent = v.consistent;
      valid = store.release_valid c g.owners uid token v.valid;
      behind = λ u. omega (arith, v.behind u, store.release_keeps c g.owners uid token u);
    }

    bound_generations :
        (cid uid : ℕ) (token : Token) (u : ℕ)
        → generation_of (bind_external g.session cid uid token).1 u
          ≤ max (generation_of g.session u) (if eqb uid u then token.generation else 0)
    bound_generations cid uid token u =
        bind_external_cases
          (λ s.
            generation_of s u
            ≤ max (generation_of g.session u) (if eqb uid u then token.generation else 0))
          g.session cid uid token (omega arith)
          λ r held real same positive. ground (
            arith,
            raise_generation-max (bind_token g.session r uid token) uid token.generation u,
            bind_token-generations g.session r uid token,
          )

    bound-IsSound :
        (cid uid : ℕ) (token : Token)
        → token.generation ≤ store.allocated g.owners uid
        → IsSound (record g { session = (bind_external g.session cid uid token).1 })
    bound-IsSound cid uid token counted = record {
      consistent = record {
        bindings = bind_external-IsBound g.session cid uid token v.consistent.bindings;
        numbers =
            bind_external-IsNumbered g.session cid uid token v.consistent.bindings
              v.consistent.numbers;
        subscriptions =
            bind_external-IsSubscribed g.session cid uid token v.consistent.subscriptions;
      };
      valid = v.valid;
      behind = λ u. ground (arith, bound_generations cid uid token u, v.behind u, counted);
    }

  module _ (ctx : Contexts store) (o : Others store) (fair : AreFair o) (cid uid : ℕ)
      (local_token : Token) where
    settle-IsSound :
        (token : Token) (bound : Result (Unit {0})) (g : Gate store)
        → IsSound g
        → IsSound (settle store ctx uid local_token token bound g).1
    unfolding settle
    settle-IsSound token (err e) g v = released-IsSound g v ctx.at_undo uid token
    settle-IsSound token (ok _) g v = elim (Bool-cases (is_previous store local_token uid)) [
      | inl e ↦ rw e (released-IsSound g v ctx.at_previous local_token.uid local_token)
      | inr e ↦ rw e v
    ]

    bind_acquired-IsSound :
        (answer : Result Token) (g : Gate store)
        → IsSound g
        → ((token : Token) → answer ≡ ok token → token.generation ≤ store.allocated g.owners uid)
        → IsSound (bind_acquired store ctx o cid uid local_token answer g).1
    unfolding bind_acquired
    bind_acquired-IsSound (err e) g v counted = v
    bind_acquired-IsSound (ok token) g v counted =
        let h = o.before_bind g in
        let w = fair.fair_bind.sound g v in
        let grown = fair.fair_bind.grows g uid v in
        let known = counted token refl in
        settle-IsSound token (bind_external h.session cid uid token).0 _ (
          fair.fair_release.sound _ (bound-IsSound h w cid uid token (omega (arith, grown, known))))

    acquire_and_bind-IsSound :
        (g : Gate store)
        → IsSound g
        → IsSound (acquire_and_bind store ctx o g cid uid local_token).1
    unfolding acquire_and_bind
    acquire_and_bind-IsSound g v =
        let h = o.before_acquire g in
        let w = fair.fair_acquire.sound g v in
        bind_acquired-IsSound (store.acquire ctx.at_acquire h.owners uid).0 _
          (acquired-IsSound h w ctx.at_acquire uid)
          λ token got. (store.acquire_newer ctx.at_acquire h.owners uid token w.valid got).2

    keep_or_acquire-IsSound :
        (answer : Result (Option Token)) (g : Gate store)
        → IsSound g
        → IsSound (keep_or_acquire store ctx o cid uid local_token answer g).1
    unfolding keep_or_acquire
    keep_or_acquire-IsSound (err e) g v = v
    keep_or_acquire-IsSound (ok owner) g v = elim (Bool-cases (is_same owner local_token)) [
      | inl same ↦ rw same v
      | inr differ ↦ rw differ (acquire_and_bind-IsSound g v)
    ]

    check_and_bind-IsSound :
        (g : Gate store) → IsSound g → IsSound (check_and_bind store ctx o cid uid local_token g).1
    unfolding check_and_bind
    check_and_bind-IsSound g v = elim (Bool-cases (is_live g.session local_token uid)) [
      | inl live ↦ rw live (keep_or_acquire-IsSound _ _ (fair.fair_current.sound g v))
      | inr dead ↦ rw dead (acquire_and_bind-IsSound g v)
    ]

  -- `bindSession` keeps a sound gate sound on every branch, with any answers of the contexts and
  -- whatever others do between its calls on the registry and the store, as long as that keeps a
  -- sound gate sound and takes back no generation: the registry stays consistent, the store stays
  -- in one of its states, and no local generation is ahead of the store.
  pub bind_session-IsSound :
      (ctx : Contexts store) (o : Others store) (g : Gate store)
      → AreFair o
      → IsSound g
      → (cid uid : ℕ) → IsSound (bind_session store ctx o g cid uid).1
  unfolding bind_session
  bind_session-IsSound ctx o g fair v cid uid = elim (Result-cases (token_of g.session conn cid)) [
    | inl (e, missing) ↦ rw (missing, bind_session) v
    | inr (local_token, found) ↦
        rw (found, bind_session)
          (check_and_bind-IsSound ctx o fair cid uid local_token _ (fair.fair_check.sound g v))
  ]
