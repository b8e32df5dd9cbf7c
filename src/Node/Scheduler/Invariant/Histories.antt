-- ===== src/Node/Scheduler/Invariant/Histories.antt =====
-- cluster/node/scheduler.go: all interleavings of the calls on a scheduler.
use due.Base.{[], contains, ℕ, nat_eq}
use due.Node.Actor.{Actor}
use due.Node.Scheduler.{new_scheduler}
use due.Node.Scheduler.Invariant.{IsSound, Reach, Step, World, further, here}
use due.Node.Scheduler.Invariant.Spawning.{
  operate-IsSound, relate-IsSound, spawn-IsSound, unbind_actor-IsSound,
}
use due.Node.Scheduler.Invariant.Ending.{
  commit-IsSound, destroy-IsSound, finish-IsSound, remove-IsSound,
}
use due.Node.Scheduler.Relations.{load_actor}
use due.Base.Dict.{lookup}

abbrev pub start : (ℕ → Actor) → World
start heap = record { sched = new_scheduler heap; removed = []; committed = [] }

Step-IsSound : {w u : World} → Step w u → IsSound w → IsSound u
Step-IsSound {w} (Step.spawns r opts inits fresh) v = spawn-IsSound w r opts inits fresh v
Step-IsSound {w} (Step.removes r h) v = remove-IsSound w r h v
Step-IsSound {w} (Step.destroys_removed r h) v = destroy-IsSound w r h v
Step-IsSound {w} (Step.commits r generation h) v = commit-IsSound w r generation h v
Step-IsSound {w} (Step.finishes r h) v = finish-IsSound w r h v
Step-IsSound {w} (Step.relates uid r h) v = relate-IsSound w uid r h v
Step-IsSound {w} (Step.unbinds uid kind) v = unbind_actor-IsSound w uid kind v
Step-IsSound {w} (Step.operates r o) v = operate-IsSound w r o v

start-IsSound : (heap : ℕ → Actor) → IsSound (start heap)
unfolding new_scheduler contains load_actor lookup
start-IsSound heap = record {
  registered = λ p r h. cc;
  spawned = λ r h. cc;
  committed_once = λ r h. cc;
  finished_once = λ r h. cc;
  distinct = tt;
  related = λ uid kind r h. cc;
}

-- After any interleaving of the steps of spawning, removing, destroying, idle release, binding,
-- unbinding and work on actors, from a new scheduler: every registered actor stands under its own
-- name, runs and is not about to be destroyed; an actor that is about to be destroyed was spawned;
-- an actor that was released as idle is destroyed and not finished before; the actors whose
-- destruction was finished are destroyed, each finished once; and every relation of a user leads to
-- an actor that was spawned and is of the relation's kind.
pub start-Reach-IsSound : (heap : ℕ → Actor) {w : World} → Reach (start heap) w → IsSound w
start-Reach-IsSound heap here = start-IsSound heap
start-Reach-IsSound heap (further h step) = Step-IsSound step (start-Reach-IsSound heap h)
