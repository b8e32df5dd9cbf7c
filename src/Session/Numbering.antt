-- ===== src/Session/Numbering.antt =====
-- The tokens of the bound sessions: whose they are and which generation they carry.
use due.Base.{
  arith, eqb, if◌then◌else◌, some, ℕ, ℕ_discrete, ◌+◌, ◌-◌, ◌<◌, ◌^◌, ◌≡◌, ◌≢◌, ◌≤◌, nat_eq,
}
use Prim.Native.Nat.{max}
use due.Base.Dict.{lookup, lookup-erase, lookup-insert, lookup_or}
use due.Base.Words.{inc64}
use due.Session.{
  Session, Token, add_conn, bind, bind_external, bind_token, init_conn, install, next_generation,
  raise_generation, rem_conn, unbind, unbind_owner, zero_token,
}
use due.Session.Facts.{bind_cases, bind_external_cases, unbind_cases}
use due.Session.Rebind.{Rebinds, bind_token-Rebinds}
use due.Session.Invariant.{IsBound, bind_token_same, next_generation-IsBound}

-- The token of a connection that holds the user `u`, under a bound on the generations.
abbrev pub IsIssued : (ℕ → ℕ) → ℕ → Token → Type 0
IsIssued bound u t = (t.uid ≡ u) × (0 < t.generation) × (t.generation ≤ bound u)

abbrev pub generation_of : Session → ℕ → ℕ
generation_of s u = lookup_or 0 u s.generations

abbrev pub token_at : Session → ℕ → Token
token_at s r = lookup_or zero_token (s.heap r).id s.tokens

abbrev pub IsNumberedBy : (ℕ → ℕ) → Session → Type 0
IsNumberedBy bound s = (u r : ℕ) → lookup u s.users ≡ some r → IsIssued bound u (token_at s r)

-- Every user's session carries a token of that user, of a generation allocated before.
abbrev pub IsNumbered : Session → Type 0
IsNumbered s = IsNumberedBy (generation_of s) s

Rebinds-IsNumberedBy :
    (f g : ℕ → ℕ) (s t : Session) (cid r uid : ℕ) (token : Token)
    → IsBound s
    → lookup cid s.conns ≡ some r
    → Rebinds s t r uid token
    → ((u : ℕ) → f u ≤ g u)
    → IsIssued g uid token
    → IsNumberedBy f s
    → IsNumberedBy g t
Rebinds-IsNumberedBy f g s t cid r uid token v held b le new n u x h = ground (
  arith,
  b.users u,
  b.ids x,
  b.tokens (s.heap x).id,
  v.users_conns u x,
  v.users_uid u x,
  v.conns_id cid r held,
  n u x,
  le u,
)

bind_token-IsNumberedBy :
    (f g : ℕ → ℕ) (s : Session) (cid r uid : ℕ) (token : Token)
    → IsBound s
    → lookup cid s.conns ≡ some r
    → uid ≢ 0
    → ((u : ℕ) → f u ≤ g u)
    → IsIssued g uid token
    → IsNumberedBy f s
    → IsNumberedBy g (bind_token s r uid token)
bind_token-IsNumberedBy f g s cid r uid token v held real le new n =
    elim (ℕ_discrete (s.heap r).uid uid) [
      | yes same ↦
          rw (bind_token_same s r uid token (ground (arith, v.bound_users cid r held)) same real)
            λ u x h. ground (
              arith,
              lookup-insert (s.heap r).id (s.heap x).id token s.tokens,
              v.users_uid u x h,
              v.users_conns u x h,
              v.conns_id cid r held,
              n u x h,
              le u,
            )
      | no moves ↦
          Rebinds-IsNumberedBy f g s _ cid r uid token v held
            (bind_token-Rebinds s r uid token v.named (v.bound_users cid r held) moves real) le new
            n
    ]

pub bind_token-generations :
    (s : Session) (r uid : ℕ) (token : Token)
    → (bind_token s r uid token).generations ≡ s.generations
unfolding bind_token install unbind_owner
bind_token-generations s r uid token = ground arith

-- Allocation gives a positive generation above the last, unless the counter wraps.
pub next_generation_grows :
    (s : Session) (uid : ℕ)
    → generation_of s uid < 2 ^ 64 - 1
    → ((next_generation s uid).0 ≡ generation_of s uid + 1)
      × ((u : ℕ)
          → generation_of (next_generation s uid).1 u
            ≡ (if eqb uid u then generation_of s uid + 1 else generation_of s u))
unfolding next_generation
next_generation_grows s uid h = (
  ground arith,
  λ u. ground (arith, lookup-insert uid u (inc64 (generation_of s uid)) s.generations),
)

pub bind-IsNumbered :
    (s : Session) (cid uid : ℕ)
    → IsBound s
    → uid ≢ 0
    → generation_of s uid < 2 ^ 64 - 1
    → IsNumbered s
    → IsNumbered (bind s cid uid).1
bind-IsNumbered s cid uid v real room n = bind_cases IsNumbered s cid uid n λ r held moves.
    let s' = (next_generation s uid).1 in
    let token : Token = record { uid = uid; generation = (next_generation s uid).0 } in
    let (first, after) = next_generation_grows s uid room in
    rw (bind_token-generations s' r uid token) (
      bind_token-IsNumberedBy (generation_of s) (generation_of s') s' cid r uid token
        (next_generation-IsBound s uid v) (unfold next_generation in held) real
        (λ u. ground (arith, after u)) (ground (arith, after uid)) (unfold next_generation in n))

pub raise_generation-max :
    (s : Session) (uid g u : ℕ)
    → generation_of (raise_generation s uid g) u
      ≡ (if eqb uid u then max g (generation_of s uid) else generation_of s u)
unfolding raise_generation
raise_generation-max s uid g u = ground (arith, lookup-insert uid u g s.generations)

raise_generation-IsNumberedBy :
    (f : ℕ → ℕ) (s : Session) (uid g : ℕ)
    → IsNumberedBy f s
    → IsNumberedBy f (raise_generation s uid g)
unfolding raise_generation
raise_generation-IsNumberedBy f s uid g n u x h = ground (arith, n u x)

pub bind_external-IsNumbered :
    (s : Session) (cid uid : ℕ) (token : Token)
    → IsBound s
    → IsNumbered s
    → IsNumbered (bind_external s cid uid token).1
bind_external-IsNumbered s cid uid token v n =
    bind_external_cases IsNumbered s cid uid token n λ r held real mine positive.
      let t = bind_token s r uid token in
      let g = generation_of (raise_generation t uid token.generation) in
      let grown = raise_generation-max t uid token.generation in
      let same = bind_token-generations s r uid token in
      raise_generation-IsNumberedBy g t uid token.generation (
        bind_token-IsNumberedBy (generation_of s) g s cid r uid token v held real
          (λ u. ground (arith, grown u, same)) (ground (arith, grown uid)) n)

pub unbind-IsNumbered :
    (s : Session) (uid : ℕ) → IsBound s → IsNumbered s → IsNumbered (unbind s uid).1
unbind-IsNumbered s uid v n =
    unbind_cases IsNumbered s uid n
      λ r owned u x h. ground (arith, lookup-erase uid u s.users, n u x)

pub add_conn-IsNumbered :
    (s : Session) (r id : ℕ)
    → IsBound s
    → lookup (s.heap r).id s.conns ≢ some r
    → IsNumbered s
    → IsNumbered (add_conn (init_conn s r id) r)
unfolding add_conn init_conn
add_conn-IsNumbered s r id v free n u x h = ground (arith, n u x, v.users_conns u x)

pub rem_conn-IsNumbered :
    (s : Session) (r : ℕ)
    → IsBound s
    → lookup (s.heap r).id s.conns ≡ some r
    → IsNumbered s
    → IsNumbered (rem_conn s r)
unfolding rem_conn
rem_conn-IsNumbered s r v held n u x h = ground (
  arith,
  lookup-erase (s.heap r).uid u s.users,
  lookup-erase (s.heap r).id (s.heap x).id s.tokens,
  v.users_conns u x,
  v.users_uid u x,
  v.bound_users (s.heap r).id r held,
  n u x,
)
