-- ===== src/Node/Scheduler/Idling.antt =====
-- cluster/node/actor.go and scheduler.go: when an idle actor is released.
use due.Base.{Bool-cases, arith, eqb, false, inl, inr, refl, suc, ℕ, ◌+◌, ◌<◌, ◌^◌, ◌≡◌, ◌≢◌, ◌≤◌}
use due.Node.Actor.{
  Actor, active, add_event_handler, add_route_handler, bind_user, cancel_idle_release, idle,
  is_started, next, release_idle_generation, retry_idle_generation, set_default_route_handler,
  started, try_invoke, unbind_user, unstart,
}
use due.Node.Scheduler.{
  Scheduler, commit_idle, destroy, finish_destroy, is_registered, kill_idle_actor, register,
  remove_actor_locked, set, spawn,
}
use due.Node.Scheduler.Relations.{forget, relate, unbind_actor}
use due.Node.Scheduler.Invariant.{
  Operation, Reach, Step, World, adds_event, adds_route, becomes_active, becomes_idle, fires,
  further, here, invokes, operate, operate-keeps, receives, retries, sets_default,
}

abbrev generation : World → ℕ → ℕ
generation w r = (w.sched.heap r).idle_generation

unfoldable pub steps : {w u : World} → Reach w u → ℕ
steps here = 0
steps (further h step) = suc (steps h)

operate_later :
    (o : Operation) (a : Actor)
    → a.idle_generation + 1 < 2 ^ 64
    → (a.idle_generation ≤ (operate o a).idle_generation)
      × ((operate o a).idle_generation ≤ a.idle_generation + 1)
unfolding active idle release_idle_generation retry_idle_generation try_invoke next
    add_route_handler add_event_handler set_default_route_handler
operate_later becomes_active a h = ground arith
operate_later becomes_idle a h = ground arith
operate_later (fires g) a h = ground arith
operate_later (retries g) a h = ground arith
operate_later (invokes fn) a h = ground arith
operate_later (receives ctx) a h = ground arith
operate_later (adds_route route handler) a h = ground arith
operate_later (adds_event event handler) a h = ground arith
operate_later (sets_default handler) a h = ground arith

-- One step moves the generation of a spawned actor by one at most, and never back.
Step_later :
    {w u : World} (r : ℕ)
    → Step w u
    → (w.sched.heap r).state ≢ unstart
    → generation w r + 1 < 2 ^ 64
    → ((u.sched.heap r).state ≢ unstart)
      × (generation w r ≤ generation u r)
      × (generation u r ≤ generation w r + 1)
unfolding spawn register destroy finish_destroy cancel_idle_release commit_idle remove_actor_locked
    relate bind_user unbind_actor forget unbind_user
Step_later {w} r (Step.spawns x opts inits fresh) s h = ground (arith, fresh)
Step_later {w} r (Step.removes x k) s h = ground arith
Step_later {w} r (Step.destroys_removed x k) s h = ground arith
Step_later {w} r (Step.commits x g k) s h = ground arith
Step_later {w} r (Step.finishes x k) s h = ground arith
Step_later {w} r (Step.relates uid x k) s h = ground arith
Step_later {w} r (Step.unbinds uid kind) s h = ground arith
Step_later {w} r (Step.operates x o) s h =
    ground (arith, operate_later o (w.sched.heap x), operate-keeps o (w.sched.heap x))

Reach_later :
    {w u : World} (r : ℕ) (h : Reach w u)
    → (w.sched.heap r).state ≢ unstart
    → generation w r + steps h < 2 ^ 64
    → ((u.sched.heap r).state ≢ unstart)
      × (generation w r ≤ generation u r)
      × (generation u r ≤ generation w r + steps h)
unfolding steps
Reach_later r here s b = (s, omega arith, omega arith)
Reach_later r (further h step) s b =
    let (s', low, high) = Reach_later r h s (omega (arith, b)) in
    let (s'', low', high') = Step_later r step s' (omega (arith, b, high)) in
    (s'', omega (arith, low, low'), omega (arith, high, high'))

kill_idle_actor_stale :
    (s : Scheduler) (r g : ℕ)
    → eqb (s.heap r).idle_generation g ≡ false
    → (release_idle_generation (s.heap r) g ≡ (false, s.heap r))
      × (kill_idle_actor s r g ≡ (false, s))
unfolding release_idle_generation kill_idle_actor commit_idle
kill_idle_actor_stale s r g e = elim (Bool-cases (is_started (s.heap r).state)) [
  | inl f ↦ elim (Bool-cases (is_registered s r)) [
    | inl k ↦ (rw (e, f) refl, rw (k, e) refl)
    | inr k ↦ (rw (e, f) refl, rw (k) refl)
  ]
  | inr f ↦ elim (Bool-cases (is_registered s r)) [
    | inl k ↦ (rw (f) refl, rw (k, e) refl)
    | inr k ↦ (rw (f) refl, rw (k) refl)
  ]
]

-- Once a running actor was marked active, a timer of its present or an earlier idle generation
-- releases it never again: after any interleaving of steps, as long as the 64-bit counter does not
-- wrap around, the timer goes no further and leaves the actor as it is, and `killIdleActor` with
-- its generation answers false and changes nothing.
pub active-kill_idle_actor :
    (w u : World) (r g : ℕ)
    (h : Reach (record w { sched = set w.sched r (active (w.sched.heap r)) }) u)
    → (w.sched.heap r).state ≡ started
    → g ≤ generation w r
    → generation w r + 1 + steps h < 2 ^ 64
    → (release_idle_generation (u.sched.heap r) g ≡ (false, u.sched.heap r))
      × (kill_idle_actor u.sched r g ≡ (false, u.sched))
unfolding active
active-kill_idle_actor w u r g h s old b =
    let v : World = record w { sched = set w.sched r (active (w.sched.heap r)) } in
    let next_generation : generation v r ≡ generation w r + 1 = ground (arith, s, b) in
    let runs : (v.sched.heap r).state ≢ unstart = ground (arith, s) in
    let (_, low, _) = Reach_later r h runs (omega (arith, b, next_generation)) in
    let test : eqb (generation u r) g ≡ false = ground (arith, low, old, next_generation) in
    kill_idle_actor_stale u.sched r g test
