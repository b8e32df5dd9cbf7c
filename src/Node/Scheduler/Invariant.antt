-- ===== src/Node/Scheduler/Invariant.antt =====
-- cluster/node/scheduler.go: what holds of the actors after any interleaving of the calls. A call
-- gives up its locks between its steps: what it still has to do stands in `removed` (an actor that
-- was taken out and is to be destroyed) or in `committed` (an idle actor that is to be finished).
pub mod Spawning
pub mod Ending
pub mod Histories
use due.Base.{
  List, String, [], arith, contains, false, remove, some, true, ℕ, ◌∷◌, ◌≡◌, ◌≢◌, nat_eq, string_eq,
}
use due.Base.Dict.{lookup}
use due.Node.Actor.{
  Actor, ActorOptions, active, add_event_handler, add_route_handler, destroyed, idle, next, pid,
  release_idle_generation, retry_idle_generation, set_default_route_handler, started, try_invoke,
  unstart,
}
use due.Node.Scheduler.{
  Scheduler, commit_idle, destroy, finish_destroy, is_registered, remove_actor_locked, set, spawn,
}
use due.Node.Scheduler.Relations.{load_actor, relate, unbind_actor}

pub record World : Type 0 where
  pub sched : Scheduler
  pub removed : List ℕ
  pub committed : List ℕ

-- What an actor, its timer or another goroutine does to one actor.
pub data Operation : Type 0 where
  becomes_active becomes_idle : Operation
  fires retries invokes receives : ℕ → Operation
  adds_route adds_event : ℕ → ℕ → Operation
  sets_default : ℕ → Operation

abbrev pub operate : Operation → Actor → Actor
operate becomes_active a = active a
operate becomes_idle a = idle a
operate (fires generation) a = (release_idle_generation a generation).1
operate (retries generation) a = retry_idle_generation a generation
operate (invokes fn) a = (try_invoke a fn).1
operate (receives ctx) a = next a ctx
operate (adds_route route handler) a = add_route_handler a route handler
operate (adds_event event handler) a = add_event_handler a event handler
operate (sets_default handler) a = set_default_route_handler a handler

pub operate-keeps :
    (o : Operation) (a : Actor) → ((operate o a).opts ≡ a.opts) × ((operate o a).state ≡ a.state)
unfolding active idle release_idle_generation retry_idle_generation try_invoke next
    add_route_handler add_event_handler set_default_route_handler
operate-keeps becomes_active a = ground arith
operate-keeps becomes_idle a = ground arith
operate-keeps (fires generation) a = ground arith
operate-keeps (retries generation) a = ground arith
operate-keeps (invokes fn) a = ground arith
operate-keeps (receives ctx) a = ground arith
operate-keeps (adds_route route handler) a = ground arith
operate-keeps (adds_event event handler) a = ground arith
operate-keeps (sets_default handler) a = ground arith

-- A new actor is a new object. A relation is written for an actor that was loaded at some time.
pub data Step (w : World) : World → Type 0 where
  spawns :
      (r : ℕ) (opts : ActorOptions) (inits : List (ℕ × ℕ))
      → (w.sched.heap r).state ≡ unstart
      → Step w (record w { sched = (spawn w.sched r opts inits).1 })
  removes :
      (r : ℕ)
      → is_registered w.sched r ≡ true
      → Step w (record w { sched = remove_actor_locked w.sched r; removed = r ∷ w.removed })
  destroys_removed :
      (r : ℕ) → contains r w.removed ≡ true → Step w (record w { sched = (destroy w.sched r).1 })
  commits :
      (r generation : ℕ)
      → (commit_idle w.sched r generation).0 ≡ true
      → Step w
          (record w { sched = (commit_idle w.sched r generation).1; committed = r ∷ w.committed })
  finishes :
      (r : ℕ)
      → contains r w.committed ≡ true
      → Step w (record w { sched = finish_destroy w.sched r; committed = remove r w.committed })
  relates :
      (uid r : ℕ)
      → (w.sched.heap r).state ≢ unstart
      → Step w (record w { sched = relate w.sched uid r })
  unbinds : (uid : ℕ) (kind : String) → Step w (record w { sched = unbind_actor w.sched uid kind })
  operates :
      (r : ℕ) (o : Operation)
      → Step w (record w { sched = set w.sched r (operate o (w.sched.heap r)) })

pub data Reach (w : World) : World → Type 0 where
  here : Reach w w
  further : {v u : World} → Reach w v → Step v u → Reach w u

abbrev pub Distinct : List ℕ → Type 0
Distinct [] = Unit
Distinct (r ∷ rs) = (contains r rs ≡ false) × Distinct rs

-- Registered actors run and stand under their own name; an actor that is to be destroyed was
-- spawned and is not registered; what was finished is destroyed, and finished once; relations lead
-- to spawned actors of their kind.
pub record IsSound (w : World) : Type 0 where
  pub registered :
      (p : String) (r : ℕ)
      → lookup p w.sched.actors ≡ some r
      → (pid (w.sched.heap r) ≡ p)
        × ((w.sched.heap r).state ≡ started)
        × (contains r w.removed ≡ false)
  pub spawned : (r : ℕ) → contains r w.removed ≡ true → (w.sched.heap r).state ≢ unstart
  pub committed_once :
      (r : ℕ)
      → contains r w.committed ≡ true
      → ((w.sched.heap r).state ≡ destroyed) × (contains r w.sched.destroys ≡ false)
  pub finished_once :
      (r : ℕ) → contains r w.sched.destroys ≡ true → (w.sched.heap r).state ≡ destroyed
  pub distinct : Distinct w.sched.destroys
  pub related :
      (uid : ℕ) (kind : String) (r : ℕ)
      → load_actor w.sched uid kind ≡ some r
      → (kind ≡ (w.sched.heap r).opts.kind) × ((w.sched.heap r).state ≢ unstart)
