-- ===== src/Node/Scheduler.antt =====
-- cluster/node/scheduler.go, and the life of an actor that goes through it (cluster/node/actor.go).
-- An actor is a number that names an object of the heap, as a Go pointer does; `waits` and `ends`
-- are the calls of `addWait` and `doneWait`, and `destroys` the actors whose `processor.Destroy` and
-- release hook ran, the last one first.
pub mod Relations
pub mod Dropping
pub mod Invariant
pub mod Killing
pub mod Idling
pub mod Tests
use due.Base.{
  Bool, List, Option, String, [], contains, eqb, false, if◌then◌else◌, none, not, some, true, ℕ,
  ◌&&◌, ◌+◌, ◌∷◌, nat_eq, string_eq,
}
use due.Base.Dict.{Dict, erase, insert, lookup}
use due.Errors.{Result, actor_exists, err, ok}
use due.Node.Actor.{
  Actor, ActorOptions, add_route_handler, cancel_idle_release, destroyed, is_started, new_actor,
  pid, pid_of,
}

pub record Scheduler : Type 0 where
  pub heap : ℕ → Actor
  pub actors : Dict String ℕ
  pub routes : Dict ℕ String
  pub kinds : List String
  pub relations : Dict ℕ (Dict String ℕ)
  pub waits : ℕ
  pub ends : ℕ
  pub destroys : List ℕ

unfoldable pub new_scheduler : (ℕ → Actor) → Scheduler
new_scheduler heap = record {
  heap = heap;
  actors = [];
  routes = [];
  kinds = [];
  relations = [];
  waits = 0;
  ends = 0;
  destroys = [];
}

-- The object `r` becomes `a`.
abbrev pub set : Scheduler → ℕ → Actor → Scheduler
set s r a = record s { heap = λ x. if eqb x r then a else s.heap x }

abbrev pub load : Scheduler → String → String → Option ℕ
load s kind id = lookup (pid_of kind id) s.actors

-- `processor.Init`, as the routes that it adds.
abbrev pub init_routes : Actor → List (ℕ × ℕ) → Actor
init_routes a [] = a
init_routes a ((route, handler) ∷ rest) = init_routes (add_route_handler a route handler) rest

-- `for route := range act.routes`.
abbrev pub store_routes : String → Dict ℕ ℕ → Dict ℕ String → Dict ℕ String
store_routes kind [] m = m
store_routes kind ((route, handler) ∷ rest) m = store_routes kind rest (insert route kind m)

unfoldable pub register : Scheduler → ℕ → Actor → Scheduler
register s r a =
    let t = record (set s r a) {
      actors = insert (pid a) r s.actors;
      waits = if a.opts.wait then s.waits + 1 else s.waits;
    } in
    if a.opts.dispatch && not (contains a.opts.kind s.kinds)
    then record t {
      kinds = a.opts.kind ∷ s.kinds;
      routes = store_routes a.opts.kind a.routes s.routes;
    }
    else t

-- `spawnObserved`, up to `processor.Start`: a new object `r` with the routes that `Init` adds.
unfoldable pub spawn : Scheduler → ℕ → ActorOptions → List (ℕ × ℕ) → Result ℕ × Scheduler
spawn s r opts inits = elim (load s opts.kind opts.id) [
  | some other ↦ (err actor_exists, s)
  | none ↦ (ok r, register s r (init_routes (new_actor opts) inits))
]

-- The loop of `removeActorLocked` over all relations.
unfoldable pub drop_kind : ℕ → String → Dict String ℕ → Dict String ℕ
drop_kind r kind m = elim (lookup kind m) [
  | none ↦ m
  | some a ↦ if eqb a r then erase kind m else m
]

unfoldable pub drop_relations : ℕ → String → Dict ℕ (Dict String ℕ) → Dict ℕ (Dict String ℕ)
drop_relations r kind [] = []
drop_relations r kind ((uid, m) ∷ rest) = (uid, drop_kind r kind m) ∷ drop_relations r kind rest

unfoldable pub remove_actor_locked : Scheduler → ℕ → Scheduler
remove_actor_locked s r = record s {
  actors = erase (pid (s.heap r)) s.actors;
  relations = drop_relations r (s.heap r).opts.kind s.relations;
}

-- `remove`, by the kind and the identifier.
unfoldable pub remove_named : Scheduler → String → String → Option ℕ × Scheduler
remove_named s kind id = elim (load s kind id) [
  | none ↦ (none, s)
  | some r ↦ (some r, remove_actor_locked s r)
]

abbrev pub is_registered : Scheduler → ℕ → Bool
is_registered s r = elim (lookup (pid (s.heap r)) s.actors) [ none ↦ false | some a ↦ eqb a r ]

unfoldable pub remove_actor : Scheduler → ℕ → Bool × Scheduler
remove_actor s r = if is_registered s r then (true, remove_actor_locked s r) else (false, s)

-- The loop over the actor's users in `finishDestroy`.
unfoldable pub unrelate : ℕ → String → List ℕ → Dict ℕ (Dict String ℕ) → Dict ℕ (Dict String ℕ)
unrelate r kind [] m = m
unrelate r kind (uid ∷ uids) m =
    let rest = unrelate r kind uids m in
    elim (lookup uid rest) [ none ↦ rest | some d ↦ insert uid (drop_kind r kind d) rest ]

-- `clear(a.routes)` and what stands around it.
abbrev pub finished : Actor → Actor
finished a = record a {
  routes = [];
  events = [];
  default_route_handler = none;
  is_closed = true;
  is_complete = true;
}

unfoldable pub finish_destroy : Scheduler → ℕ → Scheduler
finish_destroy s r =
    let a = s.heap r in
    record (set s r (finished a)) {
      relations = unrelate r a.opts.kind a.binds s.relations;
      destroys = r ∷ s.destroys;
    }

unfoldable pub destroy : Scheduler → ℕ → Bool × Scheduler
destroy s r =
    let a = s.heap r in
    if is_started a.state
    then (true, finish_destroy (set s r (cancel_idle_release (record a { state = destroyed }))) r)
    else (false, s)

abbrev pub done_wait : Scheduler → ℕ → Scheduler
done_wait s r = if (s.heap r).opts.wait then record s { ends = s.ends + 1 } else s

unfoldable pub kill : Scheduler → String → String → Bool × Scheduler
kill s kind id =
    let (found, t) = remove_named s kind id in
    elim found [ none ↦ (false, t) | some r ↦ let (done, u) = destroy t r in (done, done_wait u r) ]

-- `killActor`, and `Destroy` of an actor.
unfoldable pub kill_actor : Scheduler → ℕ → Bool × Scheduler
kill_actor s r =
    let (found, t) = remove_actor s r in
    if found then (let (done, u) = destroy t r in (done, done_wait u r)) else (false, t)

-- What `killIdleActor` decides and writes under both locks.
unfoldable pub commit_idle : Scheduler → ℕ → ℕ → Bool × Scheduler
commit_idle s r generation =
    let a = s.heap r in
    if is_registered s r && eqb a.idle_generation generation && is_started a.state
    then (
      true,
      remove_actor_locked (set s r (cancel_idle_release (record a { state = destroyed }))) r,
    )
    else (false, s)

unfoldable pub kill_idle_actor : Scheduler → ℕ → ℕ → Bool × Scheduler
kill_idle_actor s r generation =
    let (committed, t) = commit_idle s r generation in
    if committed then (true, done_wait (finish_destroy t r) r) else (false, t)
