-- ===== src/Session/Rebind.antt =====
-- What `bindToken` does to each index of the registry, in one description.
use due.Base.{arith, eqb, if◌then◌else◌, none, some, ℕ, ◌≡◌, ◌≢◌, nat_eq, string_eq}
use due.Base.Dict.{erase, lookup, lookup-erase, lookup-insert}
use due.Session.{Session, Token, bind_token, install, is_owner, unbind_owner}

-- `t` is `s` with the connection `r` bound to `uid` under `token`: the user of `uid` is `r`, the
-- user that `r` was bound to is gone, and the connection that held `uid` is unbound.
pub record Rebinds (s t : Session) (r uid : ℕ) (token : Token) : Type 0 where
  pub conns : t.conns ≡ s.conns
  pub channels : t.channels ≡ s.channels
  pub ids : (x : ℕ) → (t.heap x).id ≡ (s.heap x).id
  pub attrs : (x : ℕ) → (t.heap x).attr ≡ (s.heap x).attr
  pub uids :
      (x : ℕ)
      → (t.heap x).uid ≡ (if eqb x r then uid else if is_owner s uid x then 0 else (s.heap x).uid)
  pub users :
      (u : ℕ)
      → lookup u t.users
        ≡ (if eqb uid u then some r else if eqb (s.heap r).uid u then none else lookup u s.users)
  pub tokens :
      (c : ℕ) → lookup c t.tokens ≡ (if eqb (s.heap r).id c then some token else lookup c s.tokens)

-- Taking the user `uid` from its connection, if that is another one, clears that connection's uid.
pub uids-unbind_owner :
    (s : Session) (r uid x : ℕ)
    → x ≢ r
    → ((unbind_owner s r uid).heap x).uid ≡ (if is_owner s uid x then 0 else (s.heap x).uid)
unfolding unbind_owner
uids-unbind_owner s r uid x ne = ground arith

module _ (s : Session) (r uid : ℕ) (token : Token) (named : lookup 0 s.users ≡ none)
    (bound : (s.heap r).uid ≢ 0 → lookup (s.heap r).uid s.users ≡ some r)
    (moves : (s.heap r).uid ≢ uid) (real : uid ≢ 0) where
  bind_token_uids :
      (x : ℕ)
      → ((bind_token s r uid token).heap x).uid
        ≡ (if eqb x r then uid else if is_owner s uid x then 0 else (s.heap x).uid)
  unfolding bind_token install unbind_owner
  bind_token_uids x = ground (arith, lookup-erase (s.heap r).uid uid s.users)

  bind_token_users :
      (u : ℕ)
      → lookup u (bind_token s r uid token).users
        ≡ (if eqb uid u then some r else if eqb (s.heap r).uid u then none else lookup u s.users)
  unfolding bind_token install unbind_owner
  bind_token_users u = ground (
    arith,
    lookup-erase (s.heap r).uid uid s.users,
    lookup-erase (s.heap r).uid u s.users,
    lookup-insert uid u r s.users,
    lookup-insert uid u r (erase (s.heap r).uid s.users),
  )

  bind_token_tokens :
      (c : ℕ)
      → lookup c (bind_token s r uid token).tokens
        ≡ (if eqb (s.heap r).id c then some token else lookup c s.tokens)
  unfolding bind_token install unbind_owner
  bind_token_tokens c =
      ground (
        arith,
        lookup-erase (s.heap r).uid uid s.users,
        lookup-insert (s.heap r).id c token s.tokens,
      )

  -- Binding a connection to another user than its own rewrites exactly these entries.
  pub bind_token-Rebinds : Rebinds s (bind_token s r uid token) r uid token
  unfolding bind_token install unbind_owner
  bind_token-Rebinds = record {
    conns = ground arith;
    channels = ground arith;
    ids = λ x. ground arith;
    attrs = λ x. ground arith;
    uids = bind_token_uids;
    users = bind_token_users;
    tokens = bind_token_tokens;
  }
