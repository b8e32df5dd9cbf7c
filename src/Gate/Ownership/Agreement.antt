-- ===== src/Gate/Ownership/Agreement.antt =====
-- A gate's registry and the ownership store agree after a binding, whatever others do meanwhile.
use due.Base.{Bool-cases, Option, arith, inl, inr, none, refl, some, subst, true, ℕ, ◌∙◌, ◌≡◌}
use due.Errors.{Result, Result-cases, err, ok}
use due.Session.{Token, bind_external, conn, is_current, token_of}
use due.Ownership.{OwnershipStore}
use due.Gate.Ownership.{
  Contexts, Gate, Others, acquire_and_bind, bind_acquired, bind_session, check_and_bind, is_live,
  is_previous, is_same, keep_or_acquire, settle,
}
use due.Session.Binding.{bind_external-Holds}
use due.Gate.Ownership.Soundness.{AreFair, IsSound, acquired-IsSound}

is_same-eq :
    (owner : Option Token) (token : Token) → is_same owner token ≡ true → owner ≡ some token
is_same-eq none token h = cc
is_same-eq (some t) token h = ground arith

module _ (store : OwnershipStore) where
  -- The registry and the store hold `token` for the user.
  pub record Agree (g : Gate store) (uid : ℕ) (token : Token) : Type 0 where
    pub user : token.uid ≡ uid
    pub current_here : is_current g.session token ≡ true
    pub current_there : store.current none g.owners uid ≡ ok (some token)

  -- What others do takes the user neither from its owner nor from its current session.
  pub record Spares (f : Gate store → Gate store) (uid : ℕ) : Type 0 where
    pub there :
        (g : Gate store) (t : Token)
        → store.current none g.owners uid ≡ ok (some t)
        → store.current none (f g).owners uid ≡ ok (some t)
    pub here :
        (g : Gate store) (t : Token)
        → t.uid ≡ uid
        → is_current g.session t ≡ true
        → is_current (f g).session t ≡ true

  pub record Spare (o : Others store) (uid : ℕ) : Type 0 where
    pub spare_current : Spares o.before_current uid
    pub spare_bind : Spares o.before_bind uid
    pub spare_release : Spares o.before_release uid

  module _ (ctx : Contexts store) (o : Others store) (fair : AreFair store o) (cid uid : ℕ)
      (spare : Spare o uid) (local_token : Token) where
    settle-Agree :
        (fresh token : Token) (bound : Result (Unit {0})) (g : Gate store)
        → (bound ≡ ok tt → Agree g uid fresh)
        → (settle store ctx uid local_token fresh bound g).0 ≡ ok token
        → Agree (settle store ctx uid local_token fresh bound g).1 uid token
    unfolding settle
    settle-Agree fresh token (err e) g agree h = cc
    settle-Agree fresh token (ok _) g agree h =
        let same : fresh ≡ token = cc in
        subst (Agree (settle store ctx uid local_token fresh (ok tt) g).1 uid) same
          (elim (Bool-cases (is_previous store local_token uid)) [
            | inr e ↦ rw e (agree refl)
            | inl e ↦
                let a = agree refl in
                rw e (record {
                  user = a.user;
                  current_here = a.current_here;
                  current_there =
                      store.release_other ctx.at_previous g.owners local_token.uid uid local_token
                        (ground (arith, e))
                      ∙ a.current_there;
                })
          ])

    bind_acquired-Agree :
        (answer : Result Token) (token : Token) (g : Gate store)
        → IsSound store g
        → ((fresh : Token)
            → answer ≡ ok fresh
            → (fresh.uid ≡ uid) × (store.current none g.owners uid ≡ ok (some fresh)))
        → (bind_acquired store ctx o cid uid local_token answer g).0 ≡ ok token
        → Agree (bind_acquired store ctx o cid uid local_token answer g).1 uid token
    unfolding bind_acquired
    bind_acquired-Agree (err e) token g v owned h = cc
    bind_acquired-Agree (ok fresh) token g v owned h =
        let k = o.before_bind g in
        let w = fair.fair_bind.sound g v in
        let (mine, there) = owned fresh refl in
        let bound = bind_external k.session cid uid fresh in
        let after : Gate store = record k { session = bound.1 } in
        settle-Agree fresh token bound.0 (o.before_release after)
          (λ done.
            let held = bind_external-Holds k.session cid uid fresh w.consistent.bindings done in
            record {
              user = mine;
              current_here = spare.spare_release.here after fresh mine held.2.current;
              current_there =
                  spare.spare_release.there after fresh (spare.spare_bind.there g fresh there);
            })
          h

    acquire_and_bind-Agree :
        (g : Gate store) (token : Token)
        → IsSound store g
        → (acquire_and_bind store ctx o g cid uid local_token).0 ≡ ok token
        → Agree (acquire_and_bind store ctx o g cid uid local_token).1 uid token
    unfolding acquire_and_bind
    acquire_and_bind-Agree g token v h =
        let k = o.before_acquire g in
        let w = fair.fair_acquire.sound g v in
        bind_acquired-Agree (store.acquire ctx.at_acquire k.owners uid).0 token _
          (acquired-IsSound store k w ctx.at_acquire uid)
          (λ fresh got.
            let new = store.acquire_newer ctx.at_acquire k.owners uid fresh w.valid got in
            (new.0, new.3))
          h

    keep_or_acquire-Agree :
        (answer : Result (Option Token)) (g : Gate store) (token : Token)
        → IsSound store g
        → store.current ctx.at_current g.owners uid ≡ answer
        → local_token.uid ≡ uid
        → is_current g.session local_token ≡ true
        → (keep_or_acquire store ctx o cid uid local_token answer g).0 ≡ ok token
        → Agree (keep_or_acquire store ctx o cid uid local_token answer g).1 uid token
    unfolding keep_or_acquire
    keep_or_acquire-Agree (err e) g token v known mine current h = cc
    keep_or_acquire-Agree (ok owner) g token v known mine current h =
        elim (Bool-cases (is_same owner local_token)) [
          | inr differ ↦ rw differ (acquire_and_bind-Agree g token v (rw differ at h))
          | inl same ↦
              let e : local_token ≡ token = cc (rw same at h) in
              let there = store.current_context ctx.at_current g.owners uid owner known in
              subst (Agree (keep_or_acquire store ctx o cid uid local_token (ok owner) g).1 uid) e (
                rw same (record {
                  user = mine;
                  current_here = current;
                  current_there = rw (← is_same-eq owner local_token same) there;
                }))
        ]

    check_and_bind-Agree :
        (g : Gate store) (token : Token)
        → IsSound store g
        → (check_and_bind store ctx o cid uid local_token g).0 ≡ ok token
        → Agree (check_and_bind store ctx o cid uid local_token g).1 uid token
    unfolding check_and_bind
    check_and_bind-Agree g token v h = elim (Bool-cases (is_live g.session local_token uid)) [
      | inr dead ↦ rw dead (acquire_and_bind-Agree g token v (rw dead at h))
      | inl live ↦
          let mine : local_token.uid ≡ uid = ground (arith, live) in
          rw live (
            keep_or_acquire-Agree _ (o.before_current g) token (fair.fair_current.sound g v) refl
              mine (spare.spare_current.here g local_token mine (ground (arith, live)))
              (rw live at h))
    ]

  -- In a sound gate over any ownership store with the laws of `OwnershipStore`, while others may do
  -- to the gate and to the store, between the calls of `bindSession`, whatever keeps a sound gate
  -- sound and takes back no generation, and, before its calls of `Current`, `BindToken` and the
  -- last `Release`, whatever also takes this user neither from its owner in the store nor from its
  -- current session here: if `bindSession` returns a token, it is a token of the user, it is
  -- current in the gate's registry, and the store holds it as the user's owner.
  pub bind_session-Agree :
      (ctx : Contexts store) (o : Others store) (g : Gate store)
      → AreFair store o
      → IsSound store g
      → (cid uid : ℕ) (token : Token) → Spare o uid
      → (bind_session store ctx o g cid uid).0 ≡ ok token
      → Agree (bind_session store ctx o g cid uid).1 uid token
  unfolding bind_session
  bind_session-Agree ctx o g fair v cid uid token spare h =
      elim (Result-cases (token_of g.session conn cid)) [
        | inl (e, missing) ↦ cc (rw (missing, bind_session) at h)
        | inr (local_token, found) ↦
            rw (found, bind_session)
              (check_and_bind-Agree ctx o fair cid uid spare local_token _ token
                (fair.fair_check.sound g v) (rw (found, bind_session) at h))
      ]
