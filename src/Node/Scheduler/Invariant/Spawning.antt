-- ===== src/Node/Scheduler/Invariant/Spawning.antt =====
-- cluster/node/scheduler.go: spawning an actor and working with it keep what holds of the actors.
use due.Base.{
  Bool-cases, List, Option-cases, String, [], arith, contains, if◌then◌else◌, inl, inr, none, not,
  refl, some, string_eq, subst, ℕ, ◌&&◌, ◌+◌, ◌∙◌, ◌∷◌, ◌≡◌, ◌≢◌, nat_eq,
}
use due.Base.Dict.{Dict, erase, insert, lookup-insert, lookup_or}
use due.Node.Actor.{
  Actor, ActorOptions, add_route_handler, bind_user, new_actor, pid, started, unbind_user, unstart,
}
use due.Node.Scheduler.{Scheduler, init_routes, load, register, set, spawn, store_routes}
use due.Node.Scheduler.Relations.{forget, load_actor, relate, unbind_actor}
use due.Node.Scheduler.Invariant.{IsSound, Operation, World, operate, operate-keeps}
use due.Errors.{Result, actor_exists, err, ok}
use due.Node.Scheduler.Dropping.{entry, entry-erase, entry-relate}

init_routes-keeps :
    (a : Actor) (inits : List (ℕ × ℕ))
    → ((init_routes a inits).opts ≡ a.opts) × ((init_routes a inits).state ≡ a.state)
unfolding add_route_handler
init_routes-keeps a [] = (refl, refl)
init_routes-keeps a ((route, handler) ∷ rest) =
    let (o, s) = operate-keeps (Operation.adds_route route handler) a in
    let (o', s') = init_routes-keeps (add_route_handler a route handler) rest in (o' ∙ o, s' ∙ s)

register_fields :
    (s : Scheduler) (r : ℕ) (a : Actor)
    → ((register s r a).heap ≡ (set s r a).heap)
      × ((register s r a).actors ≡ insert (pid a) r s.actors)
      × ((register s r a).relations ≡ s.relations)
      × ((register s r a).destroys ≡ s.destroys)
unfolding register
register_fields s r a = ground arith

register-IsSound :
    (w : World) (r : ℕ) (a : Actor)
    → (w.sched.heap r).state ≡ unstart
    → a.state ≡ started
    → IsSound w
    → IsSound
        (record w { sched = record (set w.sched r a) { actors = insert (pid a) r w.sched.actors } })
unfolding load_actor
register-IsSound w r a fresh runs v = record {
  registered = λ p x h. ground (
    arith,
    fresh,
    runs,
    v.registered p x,
    v.spawned r,
    lookup-insert (pid a) p r w.sched.actors,
    string_eq.same_iff (pid a) p,
  );
  spawned = λ x h. ground (arith, v.spawned x, runs);
  committed_once = λ x h. ground (arith, v.committed_once x, fresh);
  finished_once = λ x h. ground (arith, v.finished_once x, fresh);
  distinct = v.distinct;
  related = λ uid kind x h. ground (arith, v.related uid kind x, fresh);
}

-- The routes, the kinds and the counters have no part in it.
pub repack :
    (w : World) (routes : Dict ℕ String) (kinds : List String) (waits ends : ℕ)
    → IsSound w
    → IsSound (record w {
      sched = record w.sched { routes = routes; kinds = kinds; waits = waits; ends = ends };
    })
unfolding load_actor
repack w routes kinds waits ends v = record {
  registered = v.registered;
  spawned = v.spawned;
  committed_once = v.committed_once;
  finished_once = v.finished_once;
  distinct = v.distinct;
  related = v.related;
}

spawn_refused :
    (s : Scheduler) (r : ℕ) (opts : ActorOptions) (inits : List (ℕ × ℕ)) (x : ℕ)
    → load s opts.kind opts.id ≡ some x
    → (err actor_exists, s) ≡ spawn s r opts inits
unfolding spawn
spawn_refused s r opts inits x e = rw (e, spawn) refl

spawn_done :
    (s : Scheduler) (r : ℕ) (opts : ActorOptions) (inits : List (ℕ × ℕ))
    → load s opts.kind opts.id ≡ none
    → (ok r, register s r (init_routes (new_actor opts) inits)) ≡ spawn s r opts inits
unfolding spawn
spawn_done s r opts inits e = rw (e, spawn) refl

pub spawn-IsSound :
    (w : World) (r : ℕ) (opts : ActorOptions) (inits : List (ℕ × ℕ))
    → (w.sched.heap r).state ≡ unstart
    → IsSound w
    → IsSound (record w { sched = (spawn w.sched r opts inits).1 })
unfolding register
spawn-IsSound w r opts inits fresh v =
    let s = w.sched in
    let a = init_routes (new_actor opts) inits in
    let b = a.opts.dispatch && not (contains a.opts.kind s.kinds) in
    let n = if a.opts.wait then s.waits + 1 else s.waits in
    let (_, runs) = init_routes-keeps (new_actor opts) inits in
    let u = record w { sched = record (set s r a) { actors = insert (pid a) r s.actors } } in
    let k = register-IsSound w r a fresh runs v in
    let goal : Result ℕ × Scheduler → Type 0 = λ o. IsSound (record w { sched = o.1 }) in
    elim (Option-cases (load s opts.kind opts.id)) [
      | inr (x, e) ↦ subst goal (spawn_refused s r opts inits x e) v
      | inl e ↦ subst goal (spawn_done s r opts inits e) (elim (Bool-cases b) [
        | inl c ↦
            rw (c, register)
              (repack u (store_routes a.opts.kind a.routes s.routes) (a.opts.kind ∷ s.kinds) n
                s.ends k)
        | inr c ↦ rw (c, register) (repack u s.routes s.kinds n s.ends k)
      ])
    ]

-- An object that keeps its name and its state.
same-IsSound :
    (w : World) (r : ℕ) (a : Actor)
    → a.opts ≡ (w.sched.heap r).opts
    → a.state ≡ (w.sched.heap r).state
    → IsSound w
    → IsSound (record w { sched = set w.sched r a })
unfolding load_actor
same-IsSound w r a o s v = record {
  registered = λ p x h. ground (arith, o, s, v.registered p x);
  spawned = λ x h. ground (arith, s, v.spawned x);
  committed_once = λ x h. ground (arith, s, v.committed_once x);
  finished_once = λ x h. ground (arith, s, v.finished_once x);
  distinct = v.distinct;
  related = λ uid kind x h. ground (arith, o, s, v.related uid kind x);
}

pub operate-IsSound :
    (w : World) (r : ℕ) (o : Operation)
    → IsSound w
    → IsSound (record w { sched = set w.sched r (operate o (w.sched.heap r)) })
operate-IsSound w r o v =
    let (e, f) = operate-keeps o (w.sched.heap r) in
    same-IsSound w r (operate o (w.sched.heap r)) e f v

-- A change of the relations that adds nothing but entries of spawned actors of the kind.
relations-IsSound :
    (w : World) (m : Dict ℕ (Dict String ℕ))
    → ((uid : ℕ) (kind : String) (r : ℕ)
        → load_actor (record w.sched { relations = m }) uid kind ≡ some r
        → (kind ≡ (w.sched.heap r).opts.kind) × ((w.sched.heap r).state ≢ unstart))
    → IsSound w
    → IsSound (record w { sched = record w.sched { relations = m } })
relations-IsSound w m h v = record {
  registered = v.registered;
  spawned = v.spawned;
  committed_once = v.committed_once;
  finished_once = v.finished_once;
  distinct = v.distinct;
  related = h;
}

pub relate-IsSound :
    (w : World) (uid r : ℕ)
    → (w.sched.heap r).state ≢ unstart
    → IsSound w
    → IsSound (record w { sched = relate w.sched uid r })
unfolding relate load_actor bind_user
relate-IsSound w uid r h v =
    let s = w.sched in
    let kind = (s.heap r).opts.kind in
    let d = lookup_or [] uid s.relations in
    let a = bind_user (s.heap r) uid in
    let relate_lem : (u : ℕ) (k : String) (x : ℕ)
        → entry u k (insert uid (insert kind r d) s.relations) ≡ some x
        → (k ≡ ((set s r a).heap x).opts.kind) × (((set s r a).heap x).state ≢ unstart) =
      λ u k x e. ground (arith, h, entry-relate uid u r x kind k s.relations e, v.related u k x) in
    relations-IsSound (record w { sched = set s r a }) (insert uid (insert kind r d) s.relations)
      (λ u k x e. relate_lem u k x e) (same-IsSound w r a refl refl v)

forget-IsSound :
    (w : World) (uid r : ℕ) (kind : String)
    → IsSound w
    → IsSound (record w { sched = forget w.sched uid kind r })
unfolding forget unbind_user load_actor
forget-IsSound w uid r kind v =
    let s = w.sched in
    let a = (unbind_user (s.heap r) uid).1 in
    let k = same-IsSound w r a refl refl v in
    let m = insert uid (erase kind (lookup_or [] uid s.relations)) s.relations in
    let old : (u : ℕ) (j : String) (x : ℕ)
        → entry u j m ≡ some x
        → (j ≡ ((set s r a).heap x).opts.kind) × (((set s r a).heap x).state ≢ unstart) =
      λ u j x f. ground (arith, v.related u j x (entry-erase uid u x kind j s.relations f)) in
    elim (Bool-cases (contains uid (s.heap r).binds)) [
      | inl c ↦ rw (c, forget) (relations-IsSound (record w { sched = set s r a }) m old k)
      | inr c ↦ rw (c, forget) k
    ]

pub unbind_actor-IsSound :
    (w : World) (uid : ℕ) (kind : String)
    → IsSound w
    → IsSound (record w { sched = unbind_actor w.sched uid kind })
unfolding unbind_actor
unbind_actor-IsSound w uid kind v =
    let goal : Scheduler → Type 0 = λ t. IsSound (record w { sched = t }) in
    elim (Option-cases (load_actor w.sched uid kind)) [
      | inl e ↦ subst goal (rw (e, unbind_actor) refl) v
      | inr (r, e) ↦ subst goal (rw (e, unbind_actor) refl) (forget-IsSound w uid r kind v)
    ]
