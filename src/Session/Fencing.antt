-- ===== src/Session/Fencing.antt =====
-- Tokens as fences: which token is current, and that a token that is not stays so.
use due.Base.{
  Bool-cases, Option-cases, arith, eqb, false, inl, inr, some, ℕ, ℕ_discrete, ◌-◌, ◌<◌, ◌^◌, ◌||◌,
  ◌≡◌, ◌≢◌, ◌≤◌, ◌⊎◌, nat_eq, string_eq,
}
use due.Base.Dict.{lookup, lookup-erase, lookup-insert}
use due.Session.{
  Session, Token, add_conn, bind, bind_external, bind_token, init_conn, is_current, next_generation,
  raise_generation, rem_conn, token_eq, unbind,
}
use due.Session.Numbering.{bind_token-generations, generation_of, next_generation_grows, token_at}
use due.Session.Consistent.{IsConsistent}
use due.Session.Invariant.{IsBound, bind_token_same, next_generation-IsBound}
use due.Session.History.{
  Reach, Reach-IsConsistent, Step, bind_local, bind_owned, connect, disconnect, here, join, leave,
  next, release,
}
use due.Session.Facts.{bind_cases, bind_external_cases, unbind_cases}
use due.Session.Rebind.{Rebinds, bind_token-Rebinds}
use due.Session.Channels.Frame.{Keeps, subscribe-Keeps, unsubscribe-Keeps}

-- A token that was issued and is not current.
pub record IsRetired (s : Session) (token : Token) : Type 0 where
  pub issued : token.generation ≤ generation_of s token.uid
  pub stale : is_current s token ≡ false

-- A state in which the token's user has another token or none, and no fewer generations.
abbrev pub Fences : Session → Token → Type 0
Fences s token = (r : ℕ) → lookup token.uid s.users ≡ some r → token_eq (token_at s r) token ≡ false

is_current-Fences :
    (s : Session) (token : Token)
    → token.uid ≢ 0
    → token.generation ≢ 0
    → is_current s token ≡ false
    → Fences s token
unfolding is_current
is_current-Fences s token real positive stale r h = ground arith

pub Fences-is_current : (s : Session) (token : Token) → Fences s token → is_current s token ≡ false
unfolding is_current
Fences-is_current s token f = elim (Option-cases (lookup token.uid s.users)) [
  | inl e ↦ ground arith
  | inr (r, e) ↦ ground (arith, f r e)
]

zero_token-is_current :
    (s : Session) (token : Token)
    → (token.uid ≡ 0) ⊎ (token.generation ≡ 0)
    → is_current s token ≡ false
unfolding is_current
zero_token-is_current s token h = ground arith

Rebinds-Fences :
    (s t : Session) (cid r uid : ℕ) (token old : Token)
    → IsBound s
    → lookup cid s.conns ≡ some r
    → Rebinds s t r uid token
    → token_eq token old ≡ false
    → Fences s old
    → Fences t old
Rebinds-Fences s t cid r uid token old v held b differ f x h = ground (
  arith,
  b.users old.uid,
  b.ids x,
  b.tokens (s.heap x).id,
  v.users_conns old.uid x,
  v.users_uid old.uid x,
  v.conns_id cid r held,
  f x,
)

bind_token-Fences :
    (s : Session) (cid r uid : ℕ) (token old : Token)
    → IsBound s
    → lookup cid s.conns ≡ some r
    → uid ≢ 0
    → token_eq token old ≡ false
    → Fences s old
    → Fences (bind_token s r uid token) old
bind_token-Fences s cid r uid token old v held real differ f =
    elim (ℕ_discrete (s.heap r).uid uid) [
      | yes same ↦
          rw (bind_token_same s r uid token (ground (arith, v.bound_users cid r held)) same real)
            λ x h. ground (arith, lookup-insert (s.heap r).id (s.heap x).id token s.tokens, f x h)
      | no moves ↦
          Rebinds-Fences s _ cid r uid token old v held
            (bind_token-Rebinds s r uid token v.named (v.bound_users cid r held) moves real) differ
            f
    ]

module _ (s : Session) (old : Token) (v : IsConsistent s) (f : Fences s old)
    (issued : old.generation ≤ generation_of s old.uid) where
  bind-Fences :
      (cid uid : ℕ) → uid ≢ 0 → generation_of s uid < 2 ^ 64 - 1 → Fences (bind s cid uid).1 old
  bind-Fences cid uid real room =
      bind_cases (λ t. Fences t old) s cid uid f
        λ r held moves.
          bind_token-Fences (next_generation s uid).1 cid r uid _ old
            (next_generation-IsBound s uid v.bindings) (unfold next_generation in held) real
            (ground (arith, (next_generation_grows s uid room).0)) (unfold next_generation in f)

  bind_external-Fences :
      (cid uid : ℕ) (token : Token)
      → generation_of s uid < token.generation
      → Fences (bind_external s cid uid token).1 old
  unfolding raise_generation
  bind_external-Fences cid uid token newer =
      bind_external_cases (λ t. Fences t old) s cid uid token f
        λ r held real mine positive x h.
          ground
            (arith, bind_token-Fences s cid r uid token old v.bindings held real (ground arith) f x)

  unbind-Fences : (uid : ℕ) → Fences (unbind s uid).1 old
  unbind-Fences uid =
      unbind_cases (λ t. Fences t old) s uid f
        λ r owned x h. ground (arith, lookup-erase uid old.uid s.users, f x)

  add_conn-Fences :
      (r id : ℕ)
      → lookup (s.heap r).id s.conns ≢ some r
      → Fences (add_conn (init_conn s r id) r) old
  unfolding add_conn init_conn
  add_conn-Fences r id free x h = ground (arith, f x, v.bindings.users_conns old.uid x)

  rem_conn-Fences : (r : ℕ) → lookup (s.heap r).id s.conns ≡ some r → Fences (rem_conn s r) old
  unfolding rem_conn
  rem_conn-Fences r held x h = ground (
    arith,
    lookup-erase (s.heap r).uid old.uid s.users,
    lookup-erase (s.heap r).id (s.heap x).id s.tokens,
    v.bindings.users_conns old.uid x,
    v.bindings.users_uid old.uid x,
    v.bindings.bound_users (s.heap r).id r held,
    f x,
  )

  Keeps-Fences : {t : Session} → Keeps s t → Fences t old
  Keeps-Fences k x h = rw (k.tokens, k.ids x) (f x (rw k.users at h))

  Step-Fences : {t : Session} → Step s t → Fences t old
  Step-Fences (connect r id free fresh) = add_conn-Fences r id free
  Step-Fences (disconnect r held) = rem_conn-Fences r held
  Step-Fences (bind_local cid uid real room) = bind-Fences cid uid real room
  Step-Fences (bind_owned cid uid token newer) = bind_external-Fences cid uid token newer
  Step-Fences (release uid) = unbind-Fences uid
  Step-Fences (join kind targets channel) = Keeps-Fences (subscribe-Keeps s kind targets channel)
  Step-Fences (leave kind targets channel) = Keeps-Fences (unsubscribe-Keeps s kind targets channel)

-- No call on the registry lowers the generation counter of a user.
pub Step-generations : {s t : Session} → Step s t → (u : ℕ) → generation_of s u ≤ generation_of t u
unfolding add_conn init_conn rem_conn raise_generation
Step-generations {s} (connect r id free fresh) u = ground arith
Step-generations {s} (disconnect r held) u = omega arith
Step-generations {s} (bind_local cid uid real room) u =
    bind_cases (λ t. generation_of s u ≤ generation_of t u) s cid uid (omega arith)
      λ r held moves. ground (
        arith,
        bind_token-generations (next_generation s uid).1 r uid
            (record { uid = uid; generation = (next_generation s uid).0 }),
        (next_generation_grows s uid room).1 u,
      )
Step-generations {s} (bind_owned cid uid token newer) u =
    bind_external_cases (λ t. generation_of s u ≤ generation_of t u) s cid uid token (omega arith)
      λ r held real mine positive. ground (
        arith,
        bind_token-generations s r uid token,
        lookup-insert uid u token.generation s.generations,
      )
Step-generations {s} (release uid) u =
    unbind_cases (λ t. generation_of s u ≤ generation_of t u) s uid (omega arith)
      λ r owned. omega arith
Step-generations {s} (join kind targets channel) u =
    let k = subscribe-Keeps s kind targets channel in rw k.generations (omega arith)
Step-generations {s} (leave kind targets channel) u =
    let k = unsubscribe-Keeps s kind targets channel in rw k.generations (omega arith)

Step-stale :
    {s t : Session} (token : Token)
    → IsConsistent s
    → Step s t
    → IsRetired s token
    → is_current t token ≡ false
Step-stale {s} {t} token v step old =
    elim (Bool-cases (eqb token.uid 0 || eqb token.generation 0)) [
      | inl zero_part ↦ zero_token-is_current t token (ground arith)
      | inr named ↦ Fences-is_current t token (
          Step-Fences s token v (is_current-Fences s token (ground arith) (ground arith) old.stale)
            old.issued step)
    ]

Step-IsRetired :
    {s t : Session} (token : Token)
    → IsConsistent s
    → Step s t
    → IsRetired s token
    → IsRetired t token
Step-IsRetired token v step old = record {
  issued = omega (arith, old.issued, Step-generations step token.uid);
  stale = Step-stale token v step old;
}

-- From a consistent registry, a token that was issued and is not current is still not current, and
-- still counted as issued, after any history of connections, disconnections, bindings, unbindings,
-- subscriptions and unsubscriptions whose steps meet the conditions of `Step`.
pub Reach-IsRetired :
    {s t : Session} (token : Token)
    → IsConsistent s
    → Reach s t
    → IsRetired s token
    → IsRetired t token
Reach-IsRetired token v here old = old
Reach-IsRetired token v (next r step) old =
    Step-IsRetired token (Reach-IsConsistent v r) step (Reach-IsRetired token v r old)
