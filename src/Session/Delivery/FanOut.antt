-- ===== src/Session/Delivery/FanOut.antt =====
-- Multicast, broadcast and publish: who is reached, and what the returned count says.
use mathlib.Core.List.{Permᴰ}
use due.Base.{
  ==_ne, Bool, List, Option, Option-cases, String, [], arith, contains, inl, inr, length, map, none,
  refl, some, subst, suc, sym, ℕ, ℕ_discrete, ◌<◌, ◌∙◌, ◌∷◌, ◌≡◌, ◌≤◌, ◌⊎◌, nat_eq, string_eq,
}
use due.Errors.{Error, Result, err, ok}
use due.Session.Delivery.{
  Call, Network, broadcast, closes, fan_out, publish, push_each, pushes, sends, values,
}
use due.Session.Consistent.{IsConsistent}
use due.Session.{Kind, Session}
use due.Session.Channels.{index_of}
use due.Base.Dict.{Dict, lookup}

-- How many of the pushes were accepted.
pub accepted : List (ℕ × Option Error) → ℕ
accepted [] = 0
accepted ((r, answer) ∷ rest) = elim answer [ none ↦ suc (accepted rest) | some e ↦ accepted rest ]

pub first_error : List (ℕ × Option Error) → Option Error
first_error [] = none
first_error ((r, answer) ∷ rest) = elim answer [ none ↦ first_error rest | some e ↦ some e ]

-- The connections that are pushed to.
abbrev pub receivers : List Call → List ℕ
receivers [] = []
receivers (sends r m ∷ cs) = receivers cs
receivers (pushes r m ∷ cs) = r ∷ receivers cs
receivers (closes r force ∷ cs) = receivers cs

contains_perm : (x : ℕ) {xs ys : List ℕ} → Permᴰ xs ys → contains x xs ≡ contains x ys
unfolding contains
contains_perm x Permᴰ.nil = refl
contains_perm x (Permᴰ.cons e p) = ground (arith, e, contains_perm x p)
contains_perm x (Permᴰ.swap e f) = ground (arith, e, f)
contains_perm x (Permᴰ.trans p q) = contains_perm x p ∙ contains_perm x q

accepted-le-length : (done : List (ℕ × Option Error)) → accepted done ≤ length done
unfolding accepted
accepted-le-length [] = omega arith
accepted-le-length ((r, none) ∷ rest) = ground (arith, accepted-le-length rest)
accepted-le-length ((r, some e) ∷ rest) = ground (arith, accepted-le-length rest)

module _ (disconnect : Bool) (message : List ℕ) where
  push_each_total :
      (done : List (ℕ × Option Error)) → (push_each done disconnect message).0 ≡ accepted done
  unfolding push_each accepted
  push_each_total [] = refl
  push_each_total ((r, none) ∷ rest) = ground (arith, push_each_total rest)
  push_each_total ((r, some e) ∷ rest) = ground (arith, push_each_total rest)

  push_each_error :
      (done : List (ℕ × Option Error)) → (push_each done disconnect message).1 ≡ first_error done
  unfolding push_each first_error
  push_each_error [] = refl
  push_each_error ((r, none) ∷ rest) = push_each_error rest
  push_each_error ((r, some e) ∷ rest) = refl

  push_each_calls :
      (done : List (ℕ × Option Error))
      → receivers (push_each done disconnect message).2 ≡ map (λ d. d.0) done
  unfolding push_each
  push_each_calls [] = refl
  push_each_calls ((r, none) ∷ rest) = ground (arith, push_each_calls rest)
  push_each_calls ((r, some e) ∷ rest) = ground (arith, push_each_calls rest)

no_error : (done : List (ℕ × Option Error)) → first_error done ≡ none → accepted done ≡ length done
unfolding first_error accepted
no_error [] h = refl
no_error ((r, none) ∷ rest) h = ground (arith, no_error rest h)
no_error ((r, some e) ∷ rest) h = cc

some_error :
    (done : List (ℕ × Option Error)) (e : Error)
    → first_error done ≡ some e
    → accepted done < length done
unfolding first_error accepted
some_error [] e h = cc
some_error ((r, none) ∷ rest) e h = ground (arith, some_error rest e h)
some_error ((r, some x) ∷ rest) e h = ground (arith, accepted-le-length rest)

-- What a fan-out whose pushes were answered like this promises: the number of pushes that were
-- accepted, or the first error if there were pushes and none was accepted.
abbrev pub Answers : List (ℕ × Option Error) → Result ℕ → Type 0
Answers done (ok total) = (total ≡ accepted done) × ((0 < accepted done) ⊎ (length done ≡ 0))
Answers done (err e) = (accepted done ≡ 0) × (first_error done ≡ some e)

module _ (n : Network) (disconnect : Bool) (message : List ℕ) where
  abbrev pub answered : List ℕ → List (ℕ × Option Error)
  answered rs = n.pushed rs disconnect message

  fan_out-Answers : (rs : List ℕ) → Answers (answered rs) (fan_out n rs disconnect message).0
  unfolding fan_out
  fan_out-Answers rs =
      let done = answered rs in
      let total = push_each_total disconnect message done in
      let error = push_each_error disconnect message done in
      elim (Option-cases (first_error done)) [
        | inl h ↦ rw (error, h, fan_out) (ground (arith, total, no_error done h))
        | inr (e, h) ↦ elim (ℕ_discrete (push_each done disconnect message).0 0) [
          | yes z ↦ rw (error, h, z, fan_out) (ground (arith, total), h)
          | no nz ↦ rw (error, h, fan_out) (rw (==_ne _ _ nz) (ground (arith, total)))
        ]
      ]

  fan_out_calls :
      (rs : List ℕ) → receivers (fan_out n rs disconnect message).1 ≡ map (λ d. d.0) (answered rs)
  unfolding fan_out
  fan_out_calls rs = ground (arith, push_each_calls disconnect message (answered rs))

  fan_out-Perm : (rs : List ℕ) → Permᴰ (receivers (fan_out n rs disconnect message).1) rs
  fan_out-Perm rs =
      subst (λ xs. Permᴰ xs rs) (sym (fan_out_calls rs)) (n.each_once rs disconnect message)

  -- For a kind of session that exists, `Broadcast` pushes once to every connection of the kind, in
  -- any order, and it answers how many of these pushes were accepted, or the first error if there
  -- were connections and none accepted.
  pub broadcast-Answers :
      (s : Session) (kind : Kind) (index : Dict ℕ ℕ)
      → index_of s kind ≡ ok index
      → Permᴰ (receivers (broadcast n s kind disconnect message).1) (values index)
        × Answers (answered (values index)) (broadcast n s kind disconnect message).0
  unfolding broadcast
  broadcast-Answers s kind index h =
      rw (h, broadcast) (fan_out-Perm (values index), fan_out-Answers (values index))

  -- In a consistent registry a publication on a channel pushes to a registered connection exactly
  -- if the connection notes the channel among its attributes.
  pub publish_reaches :
      (s : Session) (channel : String) (cid r : ℕ)
      → IsConsistent s
      → lookup cid s.conns ≡ some r
      → contains r (receivers (publish n s channel disconnect message).1)
        ≡ contains channel (s.heap r).attr
  unfolding publish contains
  publish_reaches s channel cid r v held = elim (Option-cases (lookup channel s.channels)) [
    | inl e ↦ rw (e, publish) (ground (arith, v.subscriptions.agree cid r channel held))
    | inr (rs, e) ↦
        rw (e, publish)
          (ground
            (arith, contains_perm r (fan_out-Perm rs), v.subscriptions.agree cid r channel held))
  ]
