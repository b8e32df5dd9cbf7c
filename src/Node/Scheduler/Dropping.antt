-- ===== src/Node/Scheduler/Dropping.antt =====
-- cluster/node/scheduler.go: which relations are left when an actor is taken out of them.
use due.Base.{
  List, Option, Option-cases, String, [], arith, eqb, false, inl, inr, nat_eq, none, some,
  string_eq, ℕ, ◌&&◌, ◌==◌, ◌∷◌, ◌≡◌, ◌⊎◌,
}
use due.Base.Dict.{Dict, erase, insert, lookup, lookup-erase, lookup-insert, lookup_or}
use due.Node.Scheduler.{drop_kind, drop_relations, unrelate}

-- The actor of a user for a kind.
abbrev pub entry : ℕ → String → Dict ℕ (Dict String ℕ) → Option ℕ
entry uid kind m = elim (lookup uid m) [ none ↦ none | some d ↦ lookup kind d ]

pub lookup-drop_kind :
    (r a : ℕ) (kind k : String) (m : Dict String ℕ)
    → lookup k (drop_kind r kind m) ≡ some a
    → (lookup k m ≡ some a) × ((k == kind && eqb a r) ≡ false)
unfolding drop_kind
lookup-drop_kind r a kind k m h =
    ground (arith, lookup-erase kind k m, string_eq.same_iff k kind, string_eq.same_iff kind k)

pub entry-drop_relations :
    (r a uid : ℕ) (kind k : String) (m : Dict ℕ (Dict String ℕ))
    → entry uid k (drop_relations r kind m) ≡ some a
    → (entry uid k m ≡ some a) × ((k == kind && eqb a r) ≡ false)
unfolding drop_relations lookup
entry-drop_relations r a uid kind k [] h = cc
entry-drop_relations r a uid kind k ((u, d) ∷ rest) h =
    ground (arith, lookup-drop_kind r a kind k d, entry-drop_relations r a uid kind k rest)

pub entry-unrelate :
    (r a uid : ℕ) (kind k : String) (uids : List ℕ) (m : Dict ℕ (Dict String ℕ))
    → entry uid k (unrelate r kind uids m) ≡ some a
    → entry uid k m ≡ some a
unfolding unrelate
entry-unrelate r a uid kind k [] m h = h
entry-unrelate r a uid kind k (u ∷ uids) m h =
    let rest = unrelate r kind uids m in
    let ih = entry-unrelate r a uid kind k uids m in
    elim (Option-cases (lookup u rest)) [
      | inl e ↦ ground (arith, e, ih)
      | inr (d, e) ↦ ground (
        arith,
        e,
        ih,
        lookup-insert u uid (drop_kind r kind d) rest,
        lookup-drop_kind r a kind k d,
        nat_eq.same_iff u uid,
      )
    ]

pub entry-relate :
    (uid u r x : ℕ) (kind k : String) (m : Dict ℕ (Dict String ℕ))
    → entry u k (insert uid (insert kind r (lookup_or [] uid m)) m) ≡ some x
    → ((k ≡ kind) × (x ≡ r)) ⊎ (entry u k m ≡ some x)
unfolding lookup insert
entry-relate uid u r x kind k m h = elim (Option-cases (lookup uid m)) [
  | inl e ↦ ground (
    arith,
    e,
    lookup-insert uid u (insert kind r []) m,
    lookup-insert kind k r [],
    string_eq.same_iff kind k,
  )
  | inr (d, e) ↦ ground (
    arith,
    e,
    lookup-insert uid u (insert kind r d) m,
    lookup-insert kind k r d,
    string_eq.same_iff kind k,
    nat_eq.same_iff uid u,
  )
]

pub entry-erase :
    (uid u x : ℕ) (kind k : String) (m : Dict ℕ (Dict String ℕ))
    → entry u k (insert uid (erase kind (lookup_or [] uid m)) m) ≡ some x
    → entry u k m ≡ some x
unfolding lookup erase insert
entry-erase uid u x kind k m h = elim (Option-cases (lookup uid m)) [
  | inl e ↦ ground (arith, e, lookup-insert uid u [] m)
  | inr (d, e) ↦
      ground (
        arith,
        e,
        lookup-insert uid u (erase kind d) m,
        lookup-erase kind k d,
        nat_eq.same_iff uid u,
      )
]
