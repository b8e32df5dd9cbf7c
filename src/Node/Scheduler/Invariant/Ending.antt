-- ===== src/Node/Scheduler/Invariant/Ending.antt =====
-- cluster/node/scheduler.go: taking an actor out and destroying it keep what holds of the actors.
use due.Base.{
  Bool-cases, Option-cases, String, arith, contains, contains-remove, eqb, false, inl, inr, nat_eq,
  refl, remove, some, string_eq, true, ℕ, ◌&&◌, ◌∷◌, ◌≡◌, ◌≢◌,
}
use due.Base.Dict.{Dict, lookup, lookup-erase}
use due.Node.Actor.{Actor, cancel_idle_release, destroyed, is_started, pid}
use due.Node.Scheduler.{
  Scheduler, commit_idle, destroy, finish_destroy, finished, is_registered, remove_actor_locked,
  set, unrelate,
}
use due.Node.Scheduler.Dropping.{entry, entry-drop_relations, entry-unrelate}
use due.Node.Scheduler.Invariant.{IsSound, World}
use due.Node.Scheduler.Relations.{load_actor}

-- An actor that stands under its own name.
at_own_name :
    (s : Scheduler) (r : ℕ) → is_registered s r ≡ true → lookup (pid (s.heap r)) s.actors ≡ some r
at_own_name s r h = elim (Option-cases (lookup (pid (s.heap r)) s.actors)) [
  | inl e ↦ ground (arith, e)
  | inr (a, e) ↦ ground (arith, e)
]

pub remove-IsSound :
    (w : World) (r : ℕ)
    → is_registered w.sched r ≡ true
    → IsSound w
    → IsSound (record w { sched = remove_actor_locked w.sched r; removed = r ∷ w.removed })
unfolding remove_actor_locked load_actor contains
remove-IsSound w r h v =
    let s = w.sched in
    let named = v.registered (pid (s.heap r)) r (at_own_name s r h) in
    record {
      registered = λ p x e. ground (
        arith,
        named,
        v.registered p x,
        lookup-erase (pid (s.heap r)) p s.actors,
        string_eq.same_iff (pid (s.heap r)) p,
      );
      spawned = λ x e. ground (arith, named, v.spawned x);
      committed_once = v.committed_once;
      finished_once = v.finished_once;
      distinct = v.distinct;
      related = λ uid k x e.
          v.related uid k x (entry-drop_relations r x uid (s.heap r).opts.kind k s.relations e).0;
    }

-- Changing the object of an actor that is not registered to a destroyed one.
ending-IsSound :
    (w : World) (r : ℕ) (a : Actor) (m : Dict ℕ (Dict String ℕ))
    → ((p : String) → lookup p w.sched.actors ≢ some r)
    → a.opts ≡ (w.sched.heap r).opts
    → a.state ≡ destroyed
    → ((uid x : ℕ) (k : String) → entry uid k m ≡ some x → entry uid k w.sched.relations ≡ some x)
    → IsSound w
    → IsSound (record w { sched = record (set w.sched r a) { relations = m } })
unfolding load_actor
ending-IsSound w r a m free o d sub v = record {
  registered = λ p x e. ground (arith, free p, v.registered p x);
  spawned = λ x e. ground (arith, d, v.spawned x);
  committed_once = λ x e. ground (arith, d, v.committed_once x);
  finished_once = λ x e. ground (arith, d, v.finished_once x);
  distinct = v.distinct;
  related = λ uid k x e. ground (arith, d, o, v.related uid k x (sub uid x k e));
}

-- The calls of `processor.Destroy` grow by an actor that is destroyed and was not finished before.
log-IsSound :
    (w : World) (r : ℕ)
    → (w.sched.heap r).state ≡ destroyed
    → contains r w.sched.destroys ≡ false
    → contains r w.committed ≡ false
    → IsSound w
    → IsSound (record w { sched = record w.sched { destroys = r ∷ w.sched.destroys } })
unfolding load_actor contains
log-IsSound w r d n c v = record {
  registered = v.registered;
  spawned = v.spawned;
  committed_once = λ x e. ground (arith, c, v.committed_once x, nat_eq.same_iff x r);
  finished_once = λ x e. ground (arith, d, v.finished_once x);
  distinct = (n, v.distinct);
  related = v.related;
}

abbrev pub same_at : (r : ℕ) → eqb r r ≡ true
same_at r = (nat_eq.same_iff r r).1 refl

-- What is left of `destroy` once the state is written.
finish-IsSound_of :
    (w : World) (r : ℕ)
    → ((p : String) → lookup p w.sched.actors ≢ some r)
    → (w.sched.heap r).state ≡ destroyed
    → contains r w.sched.destroys ≡ false
    → contains r w.committed ≡ false
    → IsSound w
    → IsSound (record w { sched = finish_destroy w.sched r })
unfolding finish_destroy
finish-IsSound_of w r free d n c v =
    let s = w.sched in
    let a = s.heap r in
    let m = unrelate r a.opts.kind a.binds s.relations in
    let u = record w { sched = record (set s r (finished a)) { relations = m } } in
    log-IsSound u r (rw (same_at r) d) n c (
      ending-IsSound w r (finished a) m free refl d
        (λ uid x k e. entry-unrelate r x uid a.opts.kind k a.binds s.relations e) v)

pub destroy-IsSound :
    (w : World) (r : ℕ)
    → contains r w.removed ≡ true
    → IsSound w
    → IsSound (record w { sched = (destroy w.sched r).1 })
unfolding destroy cancel_idle_release
destroy-IsSound w r h v =
    let s = w.sched in
    let a = cancel_idle_release (record (s.heap r) { state = destroyed }) in
    let free : (p : String) → lookup p s.actors ≢ some r =
      λ p e. ground (arith, h, v.registered p r e) in
    elim (Bool-cases (is_started (s.heap r).state)) [
      | inl e ↦ rw (e) (
          finish-IsSound_of (record w { sched = set s r a }) r free (rw (same_at r) refl)
            (ground (arith, e, v.finished_once r)) (ground (arith, e, v.committed_once r))
            (ending-IsSound w r a s.relations free refl refl (λ uid x k f. f) v))
      | inr e ↦ rw (e) v
    ]

forget_committed :
    (w : World) (r : ℕ) → IsSound w → IsSound (record w { committed = remove r w.committed })
unfolding load_actor
forget_committed w r v = record {
  registered = v.registered;
  spawned = v.spawned;
  committed_once = λ x e. ground (arith, contains-remove r x w.committed, v.committed_once x);
  finished_once = v.finished_once;
  distinct = v.distinct;
  related = v.related;
}

pub finish-IsSound :
    (w : World) (r : ℕ)
    → contains r w.committed ≡ true
    → IsSound w
    → IsSound (record w { sched = finish_destroy w.sched r; committed = remove r w.committed })
finish-IsSound w r h v =
    let (d, n) = v.committed_once r h in
    let c : contains r (remove r w.committed) ≡ false =
      ground (arith, contains-remove r r w.committed, nat_eq.same_iff r r) in
    finish-IsSound_of (record w { committed = remove r w.committed }) r
      (λ p e. ground (arith, d, v.registered p r e)) d n c (forget_committed w r v)

-- An actor that was taken out is destroyed at once instead.
commit_removed :
    (w : World) (r : ℕ) (a : Actor)
    → a.opts ≡ (w.sched.heap r).opts
    → a.state ≡ destroyed
    → contains r w.sched.destroys ≡ false
    → IsSound (record w { removed = r ∷ w.removed })
    → IsSound (record w { sched = set w.sched r a; committed = r ∷ w.committed })
unfolding load_actor contains
commit_removed w r a o d n v = record {
  registered =
      λ p x e. ground (arith, o, v.registered p x, nat_eq.same_iff x r, nat_eq.same_iff r r);
  spawned = λ x e. ground (arith, d, v.spawned x);
  committed_once = λ x e. ground (arith, d, n, v.committed_once x, nat_eq.same_iff x r);
  finished_once = λ x e. ground (arith, d, v.finished_once x);
  distinct = v.distinct;
  related = λ uid k x e. ground (arith, d, o, v.related uid k x e);
}

pub commit-IsSound :
    (w : World) (r generation : ℕ)
    → (commit_idle w.sched r generation).0 ≡ true
    → IsSound w
    → IsSound
        (record w { sched = (commit_idle w.sched r generation).1; committed = r ∷ w.committed })
unfolding commit_idle remove_actor_locked cancel_idle_release
commit-IsSound w r generation h v =
    let s = w.sched in
    let a = cancel_idle_release (record (s.heap r) { state = destroyed }) in
    let test =
      is_registered s r
      && eqb (s.heap r).idle_generation generation
      && is_started (s.heap r).state in
    elim (Bool-cases test) [
      | inl e ↦
          rw (e, same_at r)
            (commit_removed (record w { sched = remove_actor_locked s r }) r a refl refl
              (ground (arith, e, v.finished_once r)) (remove-IsSound w r (ground (arith, e)) v))
      | inr e ↦ ground (arith, h, e)
    ]
