-- ===== src/Node/Scheduler/Killing.antt =====
-- cluster/node/scheduler.go: what killing an actor leaves.
use due.Base.{
  Bool, Bool-cases, Option, String, ap, arith, false, inl, inr, nat_eq, none, refl, some, string_eq,
  subst, sym, true, ℕ, ◌∙◌, ◌∷◌, ◌≡◌, ◌≢◌,
}
use due.Base.Dict.{lookup, lookup-erase}
use due.Node.Actor.{cancel_idle_release, destroyed, is_started, pid, pid_of, started}
use due.Node.Scheduler.{
  Scheduler, destroy, done_wait, drop_relations, finish_destroy, kill, load, remove_actor_locked,
  remove_named, set,
}
use due.Node.Scheduler.Relations.{load_actor}
use due.Node.Scheduler.Invariant.{IsSound, World}
use due.Node.Scheduler.Invariant.Ending.{same_at}
use due.Node.Scheduler.Dropping.{entry-drop_relations, entry-unrelate}

-- The actor `r` is out of the scheduler `t`, and ended, and no other entry has changed since `s`.
pub record IsGone (s t : Scheduler) (kind id : String) (r : ℕ) : Type 0 where
  pub unloaded : load t kind id ≡ none
  pub others : (p : String) → p ≢ pid_of kind id → lookup p t.actors ≡ lookup p s.actors
  pub ended : (t.heap r).state ≡ destroyed
  pub complete : (t.heap r).is_complete ≡ true
  pub unrelated : (uid : ℕ) (k : String) → load_actor t uid k ≢ some r
  pub called : t.destroys ≡ r ∷ s.destroys

ended_by : Scheduler → ℕ → Scheduler
ended_by s r =
    finish_destroy
      (set (remove_actor_locked s r) r
        (cancel_idle_release (record (s.heap r) { state = destroyed })))
      r

remove_lem :
    (s : Scheduler) (kind id : String) (r : ℕ)
    → load s kind id ≡ some r
    → remove_named s kind id ≡ (some r, remove_actor_locked s r)
unfolding remove_named
remove_lem s kind id r h = rw (h, remove_named) refl

destroy_lem :
    (s : Scheduler) (r : ℕ)
    → is_started (s.heap r).state ≡ true
    → destroy (remove_actor_locked s r) r ≡ (true, ended_by s r)
unfolding destroy ended_by remove_actor_locked
destroy_lem s r e = rw (e) refl

kill_lem :
    (s : Scheduler) (kind id : String) (r : ℕ)
    → load s kind id ≡ some r
    → (s.heap r).state ≡ started
    → kill s kind id ≡ (true, done_wait (ended_by s r) r)
unfolding kill
kill_lem s kind id r h e =
    let go : Option ℕ × Scheduler → Bool × Scheduler = λ o. elim o.0 [
      | none ↦ (false, o.1)
      | some x ↦ ((destroy o.1 x).0, done_wait (destroy o.1 x).1 x)
    ] in
    let after : Bool × Scheduler → Bool × Scheduler = λ o. (o.0, done_wait o.1 r) in
    ap go (remove_lem s kind id r h) ∙ ap after (destroy_lem s r (ap is_started e))

ended_by-IsGone :
    (s : Scheduler) (kind id : String) (r : ℕ)
    → pid (s.heap r) ≡ pid_of kind id
    → ((uid : ℕ) (k : String) → load_actor s uid k ≡ some r → k ≡ (s.heap r).opts.kind)
    → IsGone s (ended_by s r) kind id r
unfolding ended_by remove_actor_locked finish_destroy cancel_idle_release load_actor
ended_by-IsGone s kind id r n v = record {
  unloaded = ground (
    arith,
    n,
    lookup-erase (pid (s.heap r)) (pid_of kind id) s.actors,
    string_eq.same_iff (pid (s.heap r)) (pid_of kind id),
  );
  others = λ p ne. ground (
    arith,
    n,
    ne,
    lookup-erase (pid (s.heap r)) p s.actors,
    string_eq.same_iff (pid (s.heap r)) p,
  );
  ended = rw (same_at r) refl;
  complete = rw (same_at r) refl;
  unrelated = λ uid k e.
      let m = drop_relations r (s.heap r).opts.kind s.relations in
      let (f, other) =
        entry-drop_relations r r uid (s.heap r).opts.kind k s.relations
          (entry-unrelate r r uid _ k _ m e) in
      ground
        (arith, other, v uid k f, nat_eq.same_iff r r, string_eq.same_iff k (s.heap r).opts.kind);
  called = refl;
}

waited-IsGone :
    (s t : Scheduler) (kind id : String) (r : ℕ)
    → IsGone s t kind id r
    → IsGone s (done_wait t r) kind id r
unfolding load_actor
waited-IsGone s t kind id r g = elim (Bool-cases (t.heap r).opts.wait) [
  | inl e ↦ rw (e) (record {
    unloaded = g.unloaded;
    others = g.others;
    ended = g.ended;
    complete = g.complete;
    unrelated = g.unrelated;
    called = g.called;
  })
  | inr e ↦ rw (e) g
]

-- In a sound scheduler `kill` of a registered actor answers true; afterwards the name loads no
-- actor and every other name what it did, the actor is destroyed and its termination complete, no
-- user is related to it, and its destruction was run once more than before.
pub kill-IsGone :
    (w : World) (kind id : String) (r : ℕ)
    → IsSound w
    → load w.sched kind id ≡ some r
    → ((kill w.sched kind id).0 ≡ true) × IsGone w.sched (kill w.sched kind id).1 kind id r
kill-IsGone w kind id r v h =
    let s = w.sched in
    let (n, e, _) = v.registered (pid_of kind id) r h in
    let goal : Bool × Scheduler → Type 0 = λ o. (o.0 ≡ true) × IsGone s o.1 kind id r in
    subst goal (sym (kill_lem s kind id r h e)) (
      refl,
      waited-IsGone s (ended_by s r) kind id r
          (ended_by-IsGone s kind id r n (λ uid k f. (v.related uid k r f).0)),
    )
