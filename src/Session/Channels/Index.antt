-- ===== src/Session/Channels/Index.antt =====
-- The index of subscribers under its updates, as a relation of channels and connections.
use due.Base.{
  Bool, List, Option-cases, String, [], add, arith, contains, contains-add, contains-remove, eqb,
  false, if◌then◌else◌, inl, inr, none, refl, remove, some, string_eq, true, ℕ, ◌==◌, ◌∷◌, ◌≡◌, ◌≢◌,
  nat_eq,
}
use due.Base.Dict.{Dict, erase, insert, lookup, lookup-erase, lookup-insert}
use due.Session.{drop_channels, drop_subscriber}
use due.Session.Channels.{add_subscriber}

-- `_, ok := s.channels[channel][conn]`
abbrev pub subscribed : Dict String (List ℕ) → String → ℕ → Bool
subscribed m channel r = elim (lookup channel m) [ none ↦ false | some rs ↦ contains r rs ]

-- No channel is kept without subscribers.
abbrev pub HasNoEmpty : Dict String (List ℕ) → Type 0
HasNoEmpty m = (channel : String) → lookup channel m ≢ some []

module _ (m : Dict String (List ℕ)) (channel : String) (r : ℕ) where
  pub subscribed-add_subscriber :
      (c : String) (x : ℕ)
      → subscribed (add_subscriber channel r m) c x
        ≡ (if channel == c then if eqb r x then true else subscribed m c x else subscribed m c x)
  unfolding add_subscriber contains
  subscribed-add_subscriber c x = elim (Option-cases (lookup channel m)) [
    | inl e ↦
        rw (e, add_subscriber)
          (ground (arith, string_eq.same_iff channel c, lookup-insert channel c (r ∷ []) m))
    | inr (rs, e) ↦
        rw (e, add_subscriber)
          (ground (
            arith,
            string_eq.same_iff channel c,
            lookup-insert channel c (add r rs) m,
            contains-add r x rs,
          ))
  ]

  pub subscribed-drop_subscriber :
      (c : String) (x : ℕ)
      → subscribed (drop_subscriber channel r m) c x
        ≡ (if channel == c then if eqb r x then false else subscribed m c x else subscribed m c x)
  unfolding drop_subscriber contains
  subscribed-drop_subscriber c x = elim (Option-cases (lookup channel m)) [
    | inl e ↦ rw (e, drop_subscriber) (ground (arith, string_eq.same_iff channel c))
    | inr (rs, e) ↦ rw (e, drop_subscriber) (left rs e (remove r rs) refl)
  ]
    where
      left :
          (rs : List ℕ)
          → lookup channel m ≡ some rs
          → (ys : List ℕ) → remove r rs ≡ ys
          → subscribed (elim ys [ [] ↦ erase channel m | y ∷ zs ↦ insert channel (y ∷ zs) m ]) c x
            ≡ (if channel == c
                then if eqb r x then false else subscribed m c x
                else subscribed m c x)
      left rs e [] h =
          ground
            (arith, string_eq.same_iff channel c, lookup-erase channel c m, contains-remove r x rs)
      left rs e (y ∷ zs) h = ground (
        arith,
        string_eq.same_iff channel c,
        lookup-insert channel c (y ∷ zs) m,
        contains-remove r x rs,
      )

  pub add_subscriber-HasNoEmpty : HasNoEmpty m → HasNoEmpty (add_subscriber channel r m)
  unfolding add_subscriber add
  add_subscriber-HasNoEmpty full c h = elim (Option-cases (lookup channel m)) [
    | inl e ↦
        ground (arith, string_eq.same_iff channel c, lookup-insert channel c (r ∷ []) m, full c, e)
    | inr (rs, e) ↦ ground (
      arith,
      string_eq.same_iff channel c,
      lookup-insert channel c (add r rs) m,
      full c,
      full channel,
      e,
    )
  ]

  pub drop_subscriber-HasNoEmpty : HasNoEmpty m → HasNoEmpty (drop_subscriber channel r m)
  unfolding drop_subscriber
  drop_subscriber-HasNoEmpty full c = elim (Option-cases (lookup channel m)) [
    | inl e ↦ rw (e, drop_subscriber) (full c)
    | inr (rs, e) ↦ rw (e, drop_subscriber) (left (remove r rs))
  ]
    where
      left :
          (ys : List ℕ)
          → lookup c (elim ys [ [] ↦ erase channel m | y ∷ zs ↦ insert channel (y ∷ zs) m ])
            ≢ some []
      left [] h = ground (arith, string_eq.same_iff channel c, lookup-erase channel c m, full c)
      left (y ∷ zs) h =
          ground (arith, string_eq.same_iff channel c, lookup-insert channel c (y ∷ zs) m, full c)

pub subscribed-drop_channels :
    (attr : List String) (r : ℕ) (m : Dict String (List ℕ)) (c : String) (x : ℕ)
    → subscribed (drop_channels attr r m) c x
      ≡ (if contains c attr then if eqb r x then false else subscribed m c x else subscribed m c x)
unfolding drop_channels contains
subscribed-drop_channels [] r m c x = refl
subscribed-drop_channels (channel ∷ rest) r m c x = ground (
  arith,
  string_eq.same_iff channel c,
  string_eq.same_iff c channel,
  subscribed-drop_channels rest r (drop_subscriber channel r m) c x,
  subscribed-drop_subscriber m channel r c x,
)

pub drop_channels-HasNoEmpty :
    (attr : List String) (r : ℕ) (m : Dict String (List ℕ))
    → HasNoEmpty m
    → HasNoEmpty (drop_channels attr r m)
unfolding drop_channels
drop_channels-HasNoEmpty [] r m full = full
drop_channels-HasNoEmpty (channel ∷ rest) r m full =
    drop_channels-HasNoEmpty rest r _ (drop_subscriber-HasNoEmpty m channel r full)
