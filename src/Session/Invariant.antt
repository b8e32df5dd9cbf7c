-- ===== src/Session/Invariant.antt =====
-- The registry's invariant, and that each method keeps it.
use due.Base.{arith, none, refl, some, ℕ, ℕ_discrete, ◌≡◌, ◌≢◌, nat_eq}
use due.Base.Dict.{insert, lookup, lookup-erase, lookup-insert}
use due.Session.{
  Session, Token, add_conn, bind, bind_external, bind_token, init_conn, next_generation,
  raise_generation, rem_conn, unbind,
}
use due.Session.Facts.{
  bind_cases, bind_external_cases, is_owner-lookup, lookup-is_owner, unbind_cases,
}
use due.Session.Rebind.{Rebinds, bind_token-Rebinds}

-- The user index and the connections' own uids say the same, and speak of registered connections.
pub record IsBound (s : Session) : Type 0 where
  pub named : lookup 0 s.users ≡ none
  pub conns_id : (c r : ℕ) → lookup c s.conns ≡ some r → (s.heap r).id ≡ c
  pub users_uid : (u r : ℕ) → lookup u s.users ≡ some r → (s.heap r).uid ≡ u
  pub users_conns : (u r : ℕ) → lookup u s.users ≡ some r → lookup (s.heap r).id s.conns ≡ some r
  pub bound_users :
      (c r : ℕ)
      → lookup c s.conns ≡ some r
      → (s.heap r).uid ≢ 0
      → lookup (s.heap r).uid s.users ≡ some r

module _ {s t : Session} {r uid : ℕ} {token : Token} (cid : ℕ) (v : IsBound s)
    (held : lookup cid s.conns ≡ some r) (real : uid ≢ 0) (b : Rebinds s t r uid token) where
  Rebinds-users_uid : (u x : ℕ) → lookup u t.users ≡ some x → (t.heap x).uid ≡ u
  Rebinds-users_uid u x h =
      ground
        (arith, b.users u, b.uids x, v.users_uid u x, v.users_uid uid x, lookup-is_owner s uid x)

  Rebinds-users_conns :
      (u x : ℕ) → lookup u t.users ≡ some x → lookup (t.heap x).id t.conns ≡ some x
  Rebinds-users_conns u x h =
      ground (arith, b.users u, b.ids x, b.conns, v.users_conns u x, v.conns_id cid r held)

  Rebinds-bound_users :
      (c x : ℕ)
      → lookup c t.conns ≡ some x
      → (t.heap x).uid ≢ 0
      → lookup (t.heap x).uid t.users ≡ some x
  Rebinds-bound_users c x h ne = ground (
    arith,
    b.users (t.heap x).uid,
    b.uids x,
    b.conns,
    v.bound_users c x,
    v.bound_users cid r,
    is_owner-lookup s uid x,
  )

  pub Rebinds-IsBound : IsBound t
  Rebinds-IsBound = record {
    named = ground (arith, b.users 0, v.named);
    conns_id = λ c x h. ground (arith, b.ids x, b.conns, v.conns_id c x);
    users_uid = Rebinds-users_uid;
    users_conns = Rebinds-users_conns;
    bound_users = Rebinds-bound_users;
  }

-- The invariant reads three fields only.
IsBound-congr :
    {s t : Session}
    → t.conns ≡ s.conns
    → t.users ≡ s.users
    → t.heap ≡ s.heap
    → IsBound s
    → IsBound t
IsBound-congr p q h v = record {
  named = rw q v.named;
  conns_id = rw (p, h) v.conns_id;
  users_uid = rw (q, h) v.users_uid;
  users_conns = rw (p, q, h) v.users_conns;
  bound_users = rw (p, q, h) v.bound_users;
}

pub next_generation-IsBound :
    (s : Session) (uid : ℕ) → IsBound s → IsBound (next_generation s uid).1
unfolding next_generation
next_generation-IsBound s uid v = IsBound-congr refl refl refl v

raise_generation-IsBound :
    (s : Session) (uid g : ℕ) → IsBound s → IsBound (raise_generation s uid g)
unfolding raise_generation
raise_generation-IsBound s uid g v = IsBound-congr (ground arith) (ground arith) (ground arith) v

pub bind_token_same :
    (s : Session) (r uid : ℕ) (token : Token)
    → lookup uid s.users ≡ some r
    → (s.heap r).uid ≡ uid
    → uid ≢ 0
    → bind_token s r uid token ≡ record s { tokens = insert (s.heap r).id token s.tokens }
unfolding bind_token
bind_token_same s r uid token owned same real = ground arith

pub bind_token-IsBound :
    (s : Session) (cid r uid : ℕ) (token : Token)
    → IsBound s
    → lookup cid s.conns ≡ some r
    → uid ≢ 0
    → IsBound (bind_token s r uid token)
bind_token-IsBound s cid r uid token v held real = elim (ℕ_discrete (s.heap r).uid uid) [
  | yes same ↦
      rw (bind_token_same s r uid token (ground (arith, v.bound_users cid r held)) same real)
        (IsBound-congr refl refl refl v)
  | no moves ↦
      Rebinds-IsBound cid v held real
        (bind_token-Rebinds s r uid token v.named (v.bound_users cid r held) moves real)
]

pub bind-IsBound : (s : Session) (cid uid : ℕ) → IsBound s → uid ≢ 0 → IsBound (bind s cid uid).1
bind-IsBound s cid uid v real = bind_cases IsBound s cid uid v λ r held _.
    bind_token-IsBound _ cid r uid _ (next_generation-IsBound s uid v) (held_after r held) real
  where
    held_after :
        (r : ℕ) → lookup cid s.conns ≡ some r → lookup cid (next_generation s uid).1.conns ≡ some r
    held_after r held = unfold next_generation in held

pub bind_external-IsBound :
    (s : Session) (cid uid : ℕ) (token : Token)
    → IsBound s
    → IsBound (bind_external s cid uid token).1
bind_external-IsBound s cid uid token v =
    bind_external_cases IsBound s cid uid token v λ r held real _ _.
      raise_generation-IsBound _ uid token.generation
        (bind_token-IsBound s cid r uid token v held real)

pub unbind-IsBound : (s : Session) (uid : ℕ) → IsBound s → IsBound (unbind s uid).1
unbind-IsBound s uid v = unbind_cases IsBound s uid v λ r owned. record {
  named = ground (arith, lookup-erase uid 0 s.users, v.named);
  conns_id = λ c x h. ground (arith, v.conns_id c x h);
  users_uid =
      λ u x h. ground (arith, lookup-erase uid u s.users, v.users_uid u x, v.users_uid uid r owned);
  users_conns = λ u x h. ground (arith, lookup-erase uid u s.users, v.users_conns u x);
  bound_users = λ c x h ne. ground (
    arith,
    lookup-erase uid (s.heap x).uid s.users,
    v.bound_users c x h,
    v.users_uid uid r owned,
  );
}

-- A new connection has an object that is not registered and an identifier that is not in use.
pub add_conn-IsBound :
    (s : Session) (r id : ℕ)
    → IsBound s
    → lookup (s.heap r).id s.conns ≢ some r
    → lookup id s.conns ≡ none
    → IsBound (add_conn (init_conn s r id) r)
unfolding add_conn init_conn
add_conn-IsBound s r id v free fresh = record {
  named = ground (arith, v.named);
  conns_id = λ c x h. ground (arith, lookup-insert id c r s.conns, v.conns_id c x, v.conns_id c r);
  users_uid = λ u x h. ground (arith, v.users_uid u x, v.users_conns u x);
  users_conns = λ u x h.
      ground
        (arith, lookup-insert id (s.heap x).id r s.conns, v.users_conns u x, v.users_conns u r);
  bound_users = λ c x h ne. ground (arith, lookup-insert id c r s.conns, v.bound_users c x);
}

pub rem_conn-IsBound :
    (s : Session) (r : ℕ)
    → IsBound s
    → lookup (s.heap r).id s.conns ≡ some r
    → IsBound (rem_conn s r)
unfolding rem_conn
rem_conn-IsBound s r v held = record {
  named = ground (arith, lookup-erase (s.heap r).uid 0 s.users, v.named);
  conns_id = λ c x h. ground (arith, lookup-erase (s.heap r).id c s.conns, v.conns_id c x);
  users_uid = λ u x h. ground (arith, lookup-erase (s.heap r).uid u s.users, v.users_uid u x);
  users_conns = λ u x h. ground (
    arith,
    lookup-erase (s.heap r).uid u s.users,
    lookup-erase (s.heap r).id (s.heap x).id s.conns,
    v.users_conns u x,
    v.users_uid u x,
    v.bound_users (s.heap r).id r held,
  );
  bound_users = λ c x h ne. ground (
    arith,
    lookup-erase (s.heap r).id c s.conns,
    lookup-erase (s.heap r).uid (s.heap x).uid s.users,
    v.bound_users c x,
    v.bound_users (s.heap r).id r held,
    v.conns_id c x,
  );
}
