-- ===== src/Session/Channels/Invariant.antt =====
-- The two records of a subscription, at the connection and in the registry, agree.
use due.Base.{String, arith, contains, none, refl, some, true, ℕ, ◌≡◌, ◌≢◌, nat_eq, string_eq}
use due.Base.Dict.{lookup, lookup-erase, lookup-insert}
use due.Session.{
  Session, Token, add_conn, bind, bind_external, bind_token, init_conn, install, next_generation,
  raise_generation, rem_conn, unbind, unbind_owner,
}
use due.Session.Facts.{bind_cases, bind_external_cases, unbind_cases}
use due.Session.Invariant.{IsBound}
use due.Session.Channels.Index.{
  HasNoEmpty, drop_channels-HasNoEmpty, subscribed, subscribed-drop_channels,
}

pub record IsSubscribed (s : Session) : Type 0 where
  pub agree :
      (c r : ℕ) (channel : String)
      → lookup c s.conns ≡ some r
      → subscribed s.channels channel r ≡ contains channel (s.heap r).attr
  pub registered :
      (channel : String) (r : ℕ)
      → subscribed s.channels channel r ≡ true
      → lookup (s.heap r).id s.conns ≡ some r
  pub full : HasNoEmpty s.channels

IsSubscribed-congr :
    {s t : Session}
    → t.conns ≡ s.conns
    → t.channels ≡ s.channels
    → ((x : ℕ) → (t.heap x).id ≡ (s.heap x).id)
    → ((x : ℕ) → (t.heap x).attr ≡ (s.heap x).attr)
    → IsSubscribed s
    → IsSubscribed t
IsSubscribed-congr p q ids attrs v = record {
  agree = λ c r channel h. rw (q, attrs r) (v.agree c r channel (rw p at h));
  registered = λ channel r h. rw (p, ids r) (v.registered channel r (rw q at h));
  full = rw q v.full;
}

pub bind_token-IsSubscribed :
    (s : Session) (r uid : ℕ) (token : Token)
    → IsSubscribed s
    → IsSubscribed (bind_token s r uid token)
unfolding bind_token install unbind_owner
bind_token-IsSubscribed s r uid token v =
    IsSubscribed-congr (ground arith) (ground arith) (λ x. ground arith) (λ x. ground arith) v

pub bind-IsSubscribed :
    (s : Session) (cid uid : ℕ) → IsSubscribed s → IsSubscribed (bind s cid uid).1
bind-IsSubscribed s cid uid v = bind_cases IsSubscribed s cid uid v λ r held moves.
    bind_token-IsSubscribed _ r uid _
      (unfold next_generation in IsSubscribed-congr refl refl (λ x. refl) (λ x. refl) v)

pub bind_external-IsSubscribed :
    (s : Session) (cid uid : ℕ) (token : Token)
    → IsSubscribed s
    → IsSubscribed (bind_external s cid uid token).1
unfolding raise_generation
bind_external-IsSubscribed s cid uid token v =
    bind_external_cases IsSubscribed s cid uid token v λ r held real mine positive.
      IsSubscribed-congr (ground arith) (ground arith) (λ x. ground arith) (λ x. ground arith)
        (bind_token-IsSubscribed s r uid token v)

pub unbind-IsSubscribed : (s : Session) (uid : ℕ) → IsSubscribed s → IsSubscribed (unbind s uid).1
unbind-IsSubscribed s uid v =
    unbind_cases IsSubscribed s uid v
      λ r owned. IsSubscribed-congr refl refl (λ x. ground arith) (λ x. ground arith) v

pub add_conn-IsSubscribed :
    (s : Session) (r id : ℕ)
    → lookup (s.heap r).id s.conns ≢ some r
    → lookup id s.conns ≡ none
    → IsSubscribed s
    → IsSubscribed (add_conn (init_conn s r id) r)
unfolding add_conn init_conn contains
add_conn-IsSubscribed s r id free fresh v = record {
  agree = λ c x channel h.
      ground (arith, lookup-insert id c r s.conns, v.agree c x channel, v.registered channel r);
  registered = λ channel x h.
      ground (arith, lookup-insert id (s.heap x).id r s.conns, v.registered channel x);
  full = λ c h. ground (arith, v.full c);
}

pub rem_conn-IsSubscribed :
    (s : Session) (r : ℕ)
    → IsBound s
    → lookup (s.heap r).id s.conns ≡ some r
    → IsSubscribed s
    → IsSubscribed (rem_conn s r)
unfolding rem_conn
rem_conn-IsSubscribed s r b held v = record {
  agree = λ c x channel h. ground (
    arith,
    lookup-erase (s.heap r).id c s.conns,
    subscribed-drop_channels (s.heap r).attr r s.channels channel x,
    v.agree c x channel,
    b.conns_id c x,
  );
  registered = λ channel x h. ground (
    arith,
    lookup-erase (s.heap r).id (s.heap x).id s.conns,
    subscribed-drop_channels (s.heap r).attr r s.channels channel x,
    v.registered channel x,
    v.agree (s.heap r).id r channel held,
  );
  full = drop_channels-HasNoEmpty (s.heap r).attr r s.channels v.full;
}
