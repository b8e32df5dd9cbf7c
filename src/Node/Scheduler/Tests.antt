-- ===== src/Node/Scheduler/Tests.antt =====
-- cluster/node/scheduler.go: concrete runs.
use due.Base.{[], arith, contains, false, refl, some, true, ℕ, ◌∷◌, ◌≡◌, nat_eq}
use due.Base.Dict.{insert, lookup}
use due.Node.Actor.{
  Actor, ActorOptions, active, add_route_handler, new_actor, release_idle_generation, started,
  unstart,
}
use due.Node.Scheduler.{kill, kill_idle_actor, load, new_scheduler, register, set, spawn}
use due.Node.Scheduler.Relations.{relate}
use due.Node.Scheduler.Invariant.{IsSound, Reach, Step, World, further, here}
use due.Node.Scheduler.Invariant.Histories.{start, start-Reach-IsSound}
use due.Node.Scheduler.Killing.{IsGone, kill-IsGone}
use due.Node.Scheduler.Idling.{active-kill_idle_actor, steps}

abbrev room_opts : ActorOptions
room_opts = record { id = "7"; kind = "room"; wait = true; dispatch = true; idle_timeout = 5 }

abbrev blank : ℕ → Actor
blank r = record (new_actor room_opts) { state = unstart }

-- The room is spawned, a user is bound to it, and it falls idle.
abbrev spawned_room : World
spawned_room = record (start blank) {
  sched = (spawn (new_scheduler blank) 1 room_opts ((3, 30) ∷ [])).1;
}

abbrev bound_room : World
bound_room = record spawned_room { sched = relate spawned_room.sched 5 1 }

room_runs : (spawned_room.sched.heap 1).state ≡ started
unfolding spawn register new_scheduler add_route_handler contains lookup
room_runs = refl

bound_room-Reach : Reach (start blank) bound_room
unfolding new_scheduler
bound_room-Reach =
    further (further here (Step.spawns 1 room_opts ((3, 30) ∷ []) refl))
      (Step.relates 5 1 (λ e. let runs = room_runs in cc))

start-Reach-IsSound_example : IsSound bound_room
start-Reach-IsSound_example = start-Reach-IsSound blank bound_room-Reach

room_loaded : load bound_room.sched "room" "7" ≡ some 1
unfolding spawn register new_scheduler add_route_handler contains lookup insert relate
room_loaded = refl

kill-IsGone_example :
    ((kill bound_room.sched "room" "7").0 ≡ true)
    × IsGone bound_room.sched (kill bound_room.sched "room" "7").1 "room" "7" 1
kill-IsGone_example =
    kill-IsGone bound_room "room" "7" 1 (start-Reach-IsSound blank bound_room-Reach) room_loaded

abbrev woken : World
woken = record spawned_room {
  sched = set spawned_room.sched 1 (active (spawned_room.sched.heap 1));
}

active-kill_idle_actor_example :
    (release_idle_generation (woken.sched.heap 1) 0 ≡ (false, woken.sched.heap 1))
    × (kill_idle_actor woken.sched 1 0 ≡ (false, woken.sched))
unfolding steps spawn register new_scheduler add_route_handler contains lookup
active-kill_idle_actor_example =
    active-kill_idle_actor spawned_room woken 1 0 here room_runs (omega arith) (omega arith)
