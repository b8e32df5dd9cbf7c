-- ===== src/Node/Scheduler/Relations.antt =====
-- cluster/node/scheduler.go: which actor handles the requests of a user, and giving it a request.
use due.Base.{Option, String, [], eqb, if◌then◌else◌, none, some, ℕ, ◌∷◌, nat_eq, string_eq}
use due.Base.Dict.{Dict, erase, insert, lookup, lookup_or}
use due.Errors.{
  Result, err, illegal_operation, missing_dispatch_strategy, not_bind_actor, not_found_actor, ok,
  unregister_route,
}
use due.Node.Actor.{bind_user, next, unbind_user}
use due.Node.Scheduler.{Scheduler, load, set}

-- What `bindActor` does once it has loaded the actor.
unfoldable pub relate : Scheduler → ℕ → ℕ → Scheduler
relate s uid r =
    let kind = (s.heap r).opts.kind in
    record (set s r (bind_user (s.heap r) uid)) {
      relations = insert uid (insert kind r (lookup_or [] uid s.relations)) s.relations;
    }

unfoldable pub bind_actor : Scheduler → ℕ → String → String → Result (Unit {0}) × Scheduler
bind_actor s uid kind id = if eqb uid 0 then (err illegal_operation, s) else elim (load s kind id) [
  | none ↦ (err not_found_actor, s)
  | some r ↦ (ok tt, relate s uid r)
]

unfoldable pub load_actor : Scheduler → ℕ → String → Option ℕ
load_actor s uid kind = elim (lookup uid s.relations) [ none ↦ none | some m ↦ lookup kind m ]

-- What `unbindActor` does with the actor of the relation. The actor forgets the user even where the
-- relation is kept.
unfoldable pub forget : Scheduler → ℕ → String → ℕ → Scheduler
forget s uid kind r =
    let (held, a) = unbind_user (s.heap r) uid in
    let t = set s r a in
    if held
    then record t { relations = insert uid (erase kind (lookup_or [] uid s.relations)) s.relations }
    else t

unfoldable pub unbind_actor : Scheduler → ℕ → String → Scheduler
unbind_actor s uid kind = elim (load_actor s uid kind) [ none ↦ s | some r ↦ forget s uid kind r ]

-- `dispatchRequest` of the context `ctx` of a user on a route.
unfoldable pub dispatch_request : Scheduler → ℕ → ℕ → ℕ → Result (Unit {0}) × Scheduler
dispatch_request s uid route ctx =
    if eqb uid 0 then (err missing_dispatch_strategy, s) else elim (lookup route s.routes) [
      | none ↦ (err unregister_route, s)
      | some kind ↦ elim (load_actor s uid kind) [
        | none ↦ (err not_bind_actor, s)
        | some r ↦ (ok tt, set s r (next (s.heap r) ctx))
      ]
    ]

-- `dispatchEvent`: the event goes to every actor that takes part in dispatching.
unfoldable pub dispatch_event : Scheduler → Dict String ℕ → ℕ → Scheduler
dispatch_event s [] ctx = s
dispatch_event s ((name, r) ∷ rest) ctx =
    let t = if (s.heap r).opts.dispatch then set s r (next (s.heap r) ctx) else s in
    dispatch_event t rest ctx
