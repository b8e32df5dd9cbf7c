-- ===== src/Node/Router/Fencing.antt =====
-- cluster/node/router.go: a stateful route is closed to the tokens of earlier owners.
use due.Base.{
  Bool-cases, Option, arith, eqb, false, inl, inr, none, not, refl, some, sym, true, ◌==◌, ◌||◌,
  ◌∙◌, ◌≡◌, ◌≤◌, string_eq, nat_eq,
}
use due.Base.Dict.{lookup}
use due.Errors.{Error, Result-cases, ok, stale_session}
use due.Session.{Token, token_eq}
use due.Ownership.{Context, OwnershipStore}
use due.Node.Router.{
  NodeRequest, RouteEntity, Router, check_owner, handle, refused, validate_session,
}
use due.Ownership.Memory.{current}
use due.Base.Words.{is_positive64}

ok_back : {a b : Option Token} → (ok a ≡ ok b) → a ≡ b
ok_back h = cc

owner_lem :
    (store : OwnershipStore) (t : store.State) (req : NodeRequest) (new : Token)
    → store.current none t req.uid ≡ ok (some new)
    → token_eq new req.token ≡ false
    → (e : Error) × (check_owner store t req ≡ some e)
unfolding check_owner
owner_lem store t req new h ne =
    let bad =
      not (is_positive64 req.uid)
      || not (eqb req.token.uid req.uid)
      || eqb req.token.generation 0 in
    elim (Bool-cases bad) [
      | inl b ↦ (stale_session, rw (b) refl)
      | inr b ↦ elim (Result-cases (store.current req.ctx t req.uid)) [
        | inl (e, c) ↦ (e, rw (b, c) refl)
        | inr (owner, c) ↦
            let same : owner ≡ some new =
              ok_back (sym (store.current_context req.ctx t req.uid owner c) ∙ h) in
            (stale_session, rw (b, c, same, ne) refl)
      ]
    ]

-- Over any ownership store with the laws of `OwnershipStore`: once a user has acquired a new token
-- from a valid state of the store, a request of that user that came through a gate to a stateful
-- route, with a token no newer than what was allocated before, is refused, whatever its context
-- answers, and so reaches no handler and no middleware.
pub acquire-handle :
    (store : OwnershipStore) (s : store.State) (ctx : Context) (r : Router) (req : NodeRequest)
    (entity : RouteEntity) (new : Token)
    → store.IsValid s
    → (store.acquire ctx s req.uid).0 ≡ ok new
    → req.token.generation ≤ store.allocated s req.uid
    → lookup req.route r.routes ≡ some entity
    → entity.options.stateful ≡ true
    → (req.gid == "") ≡ false
    → (e : Error) × (handle store (some (store.acquire ctx s req.uid).1) r req ≡ refused e)
unfolding handle validate_session
acquire-handle store s ctx r req entity new v a old found stateful gate =
    let t = (store.acquire ctx s req.uid).1 in
    let (same, newer, _, current) = store.acquire_newer ctx s req.uid new v a in
    let ne : token_eq new req.token ≡ false = ground (arith, newer, old) in
    let (e, c) = owner_lem store t req new current ne in
    (e, rw (found, stateful, gate, c, handle) refl)
