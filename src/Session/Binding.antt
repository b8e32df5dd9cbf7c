-- ===== src/Session/Binding.antt =====
-- What binding, unbinding and disconnecting achieve.
use due.Base.{
  Option-cases, String, arith, false, eqb, if◌then◌else◌, inl, inr, none, refl, some, true, ℕ,
  ℕ_discrete, ◌+◌, ◌-◌, ◌<◌, ◌^◌, ◌∙◌, ◌≡◌, ◌≢◌, ◌≤◌, ◌⊎◌, nat_eq, string_eq,
}
use due.Base.Dict.{lookup, lookup-erase, lookup-erase_self, lookup-insert}
use due.Errors.{ok}
use due.Session.{
  Session, Token, bind, bind_external, bind_token, get_conn, install, unbind_owner, is_current,
  next_generation, raise_generation, rem_conn, rem_conn_with_token, token_of, user,
}
use due.Session.Numbering.{IsNumbered, generation_of, next_generation_grows}
use due.Base.Words.{inc64}
use due.Session.Consistent.{IsConsistent}
use due.Session.Rebind.{Rebinds, bind_token-Rebinds}
use due.Session.Facts.{bind_external_ok, bind_moves}
use due.Session.History.{bind_local}
use due.Session.Fencing.{Fences-is_current, IsRetired, Step-generations}
use due.Session.Invariant.{IsBound, bind_token_same}
use due.Session.Channels.Index.{subscribed, subscribed-drop_channels}

-- The token that `bind` makes.
abbrev pub fresh_token : Session → ℕ → Token
fresh_token s uid = record { uid = uid; generation = generation_of s uid + 1 }

rebind_base :
    {r uid : ℕ} {token : Token} (s s' : Session) {t : Session}
    → s'.conns ≡ s.conns
    → s'.channels ≡ s.channels
    → s'.heap ≡ s.heap
    → s'.users ≡ s.users
    → s'.tokens ≡ s.tokens
    → Rebinds s' t r uid token
    → Rebinds s t r uid token
rebind_base s s' a b c d e h = record {
  conns = h.conns ∙ a;
  channels = h.channels ∙ b;
  ids = rw c at h.ids;
  attrs = rw c at h.attrs;
  uids = rw (c, d) at h.uids;
  users = rw (c, d) at h.users;
  tokens = rw (c, e) at h.tokens;
}

-- The connection `r` holds the user `uid` under `token`, and the token is the user's current one.
pub record Holds (t : Session) (uid r : ℕ) (token : Token) : Type 0 where
  pub holder : lookup uid t.users ≡ some r
  pub bound : (t.heap r).uid ≡ uid
  pub issued : token_of t user uid ≡ ok token
  pub current : is_current t token ≡ true

Rebinds-Holds :
    (s t : Session) (r uid : ℕ) (token : Token)
    → Rebinds s t r uid token
    → uid ≢ 0
    → token.uid ≡ uid
    → token.generation ≢ 0
    → Holds t uid r token
unfolding token_of get_conn is_current
Rebinds-Holds s t r uid token b real mine positive =
    let u = b.users uid in
    let k = b.tokens (s.heap r).id in
    record {
      holder = ground arith;
      bound = ground (arith, b.uids r);
      issued = ground (arith, b.ids r);
      current = ground (arith, b.ids r);
    }

bind_rewrites :
    (s : Session) (cid uid r : ℕ)
    → IsBound s
    → uid ≢ 0
    → generation_of s uid < 2 ^ 64 - 1
    → lookup cid s.conns ≡ some r
    → (s.heap r).uid ≢ uid
    → Rebinds s (bind s cid uid).1 r uid (fresh_token s uid)
bind_rewrites s cid uid r v real room held moves =
    let s' = (next_generation s uid).1 in
    rw (bind_moves s cid uid r held moves, (next_generation_grows s uid room).0)
      (unfold next_generation in
        rebind_base s s' refl refl refl refl refl (
          bind_token-Rebinds s' r uid (fresh_token s uid) v.named (v.bound_users cid r held) moves
            real))

-- Under the conditions of `bind-Holds`, for maps that agree, `Bind` rewrites the entries of the
-- user, of the connection and of their former partners as `Rebinds` lists them, raises the user's
-- generation by one, and leaves every other entry of the users, tokens, connections, channels and
-- generations as it was.
pub bind-Rebinds :
    (s : Session) (cid uid r : ℕ)
    → IsBound s
    → uid ≢ 0
    → generation_of s uid < 2 ^ 64 - 1
    → lookup cid s.conns ≡ some r
    → (s.heap r).uid ≢ uid
    → Rebinds s (bind s cid uid).1 r uid (fresh_token s uid)
      × ((u : ℕ)
          → lookup u (bind s cid uid).1.generations
            ≡ (if eqb uid u then some (generation_of s uid + 1) else lookup u s.generations))
unfolding next_generation bind_token install unbind_owner
bind-Rebinds s cid uid r v real room held moves = (
  bind_rewrites s cid uid r v real room held moves,
  λ u.
      rw (bind_moves s cid uid r held moves)
        (ground (arith, lookup-insert uid u (inc64 (generation_of s uid)) s.generations)),
)

-- In a consistent registry, `Bind` of a registered connection to a user other than 0 and other than
-- its own, whose generation counter has room, succeeds: the user's entry and the connection name
-- each other, and the user's token is the fresh one and is current.
pub bind-Holds :
    (s : Session) (cid uid r : ℕ)
    → IsConsistent s
    → uid ≢ 0
    → generation_of s uid < 2 ^ 64 - 1
    → lookup cid s.conns ≡ some r
    → (s.heap r).uid ≢ uid
    → ((bind s cid uid).0 ≡ ok tt) × Holds (bind s cid uid).1 uid r (fresh_token s uid)
bind-Holds s cid uid r v real room held moves = (
  rw (bind_moves s cid uid r held moves),
  Rebinds-Holds s _ r uid (fresh_token s uid)
      (bind_rewrites s cid uid r v.bindings real room held moves) real refl (omega arith),
)

is_current-issued :
    (s : Session) (token : Token)
    → IsNumbered s
    → is_current s token ≡ true
    → token.generation ≤ generation_of s token.uid
unfolding is_current
is_current-issued s token n was = elim (Option-cases (lookup token.uid s.users)) [
  | inl e ↦ absurd (ground arith)
  | inr (r, e) ↦ ground (arith, n token.uid r e)
]

-- Under the conditions of `bind-Holds`, a token that was current for the user that is bound, or for
-- the user that the connection held before, is not current any more and stays counted as issued.
pub bind-IsRetired :
    (s : Session) (cid uid r : ℕ) (old : Token)
    → IsConsistent s
    → uid ≢ 0
    → generation_of s uid < 2 ^ 64 - 1
    → lookup cid s.conns ≡ some r
    → (s.heap r).uid ≢ uid
    → is_current s old ≡ true
    → (old.uid ≡ uid) ⊎ (old.uid ≡ (s.heap r).uid)
    → IsRetired (bind s cid uid).1 old
bind-IsRetired s cid uid r old v real room held moves was whose = record {
  issued = omega (
    arith,
    is_current-issued s old v.numbers was,
    Step-generations {s = s} (bind_local cid uid real room) old.uid,
  );
  stale =
      let b = bind_rewrites s cid uid r v.bindings real room held moves in
      Fences-is_current (bind s cid uid).1 old λ x h. ground (
        arith,
        is_current-issued s old v.numbers was,
        b.users old.uid,
        b.ids r,
        b.tokens (s.heap r).id,
      );
}

-- `RemConn` returns the connection's user and its last token, which was current if it had a user, and
-- leaves no trace of the connection in any index.
pub record IsForgotten (t : Session) (id r : ℕ) : Type 0 where
  pub no_conn : lookup id t.conns ≡ none
  pub no_token : lookup id t.tokens ≡ none
  pub no_user : (u : ℕ) → lookup u t.users ≢ some r
  pub no_channel : (channel : String) → subscribed t.channels channel r ≡ false

-- After `RemConn` of a registered connection of a consistent registry no connection has its
-- identifier, no token is kept for it, no user and no channel leads to it.
pub rem_conn-IsForgotten :
    (s : Session) (r : ℕ)
    → IsConsistent s
    → lookup (s.heap r).id s.conns ≡ some r
    → IsForgotten (rem_conn s r) (s.heap r).id r
unfolding rem_conn
rem_conn-IsForgotten s r v held = record {
  no_conn = lookup-erase_self (s.heap r).id s.conns;
  no_token = lookup-erase_self (s.heap r).id s.tokens;
  no_user = λ u h. ground (
    arith,
    lookup-erase (s.heap r).uid u s.users,
    v.bindings.users_uid u r,
    v.bindings.named,
    v.bindings.bound_users (s.heap r).id r held,
  );
  no_channel = λ channel. ground (
    arith,
    subscribed-drop_channels (s.heap r).attr r s.channels channel r,
    v.subscriptions.agree (s.heap r).id r channel held,
  );
}

-- For a registered connection of a consistent registry that holds a user, `RemConnWithToken`
-- returns this user and a token that was current before the call.
pub rem_conn-is_current :
    (s : Session) (r : ℕ)
    → IsConsistent s
    → lookup (s.heap r).id s.conns ≡ some r
    → (s.heap r).uid ≢ 0
    → let ((uid, token), t) = rem_conn_with_token s r in
      (uid ≡ (s.heap r).uid) × (is_current s token ≡ true)
unfolding rem_conn_with_token is_current
rem_conn-is_current s r v held real =
    let holder = v.bindings.bound_users (s.heap r).id r held real in
    (refl, ground (arith, v.numbers (s.heap r).uid r holder))

bind_token-Holds :
    (s : Session) (cid r uid : ℕ) (token : Token)
    → IsBound s
    → lookup cid s.conns ≡ some r
    → uid ≢ 0
    → token.uid ≡ uid
    → token.generation ≢ 0
    → Holds (bind_token s r uid token) uid r token
unfolding token_of get_conn is_current
bind_token-Holds s cid r uid token v held real mine positive =
    elim (ℕ_discrete (s.heap r).uid uid) [
      | yes same ↦
          let owned : lookup uid s.users ≡ some r = ground (arith, v.bound_users cid r held) in
          rw (bind_token_same s r uid token owned same real) (record {
            holder = owned;
            bound = same;
            issued =
                ground (arith, owned, lookup-insert (s.heap r).id (s.heap r).id token s.tokens);
            current =
                ground (arith, owned, lookup-insert (s.heap r).id (s.heap r).id token s.tokens);
          })
      | no moves ↦
          Rebinds-Holds s _ r uid token
            (bind_token-Rebinds s r uid token v.named (v.bound_users cid r held) moves real) real
            mine positive
    ]

-- If `BindToken` succeeds in a registry with agreeing maps, the connection is registered, it and
-- the user's entry name each other, and the user's token is the given one and is current.
pub bind_external-Holds :
    (s : Session) (cid uid : ℕ) (token : Token)
    → IsBound s
    → (bind_external s cid uid token).0 ≡ ok tt
    → (r : ℕ) × (lookup cid s.conns ≡ some r) × Holds (bind_external s cid uid token).1 uid r token
unfolding raise_generation token_of get_conn is_current
bind_external-Holds s cid uid token v h =
    let (r, held, good, after) = bind_external_ok s cid uid token h in
    let t =
      bind_token-Holds s cid r uid token v held (ground arith) (ground arith) (ground arith) in
    (
      r,
      held,
      rw after (record {
        holder = ground (arith, t.holder);
        bound = ground (arith, t.bound);
        issued = ground (arith, t.issued);
        current = ground (arith, t.current);
      }),
    )
