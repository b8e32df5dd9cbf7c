-- ===== src/Session/Channels/Frame.antt =====
-- What subscribing leaves alone.
use due.Base.{
  List, Option-cases, String, [], arith, inl, inr, refl, ℕ, ◌∙◌, ◌∷◌, ◌≡◌, nat_eq, string_eq,
}
use due.Base.Dict.{Dict, lookup}
use due.Session.{Kind, Session, conn, other, user}
use due.Session.Channels.{
  index_of, subscribe, subscribe_all, subscribe_conn, unsubscribe, unsubscribe_all,
  unsubscribe_conn,
}

-- `t` differs from `s` in the attributes and in the index of subscribers at most.
pub record Keeps (s t : Session) : Type 0 where
  pub conns : t.conns ≡ s.conns
  pub users : t.users ≡ s.users
  pub tokens : t.tokens ≡ s.tokens
  pub generations : t.generations ≡ s.generations
  pub ids : (x : ℕ) → (t.heap x).id ≡ (s.heap x).id
  pub uids : (x : ℕ) → (t.heap x).uid ≡ (s.heap x).uid

Keeps-refl : (s : Session) → Keeps s s
Keeps-refl s = record {
  conns = refl;
  users = refl;
  tokens = refl;
  generations = refl;
  ids = λ x. refl;
  uids = λ x. refl;
}

Keeps-trans : {s t u : Session} → Keeps s t → Keeps t u → Keeps s u
Keeps-trans a b = record {
  conns = b.conns ∙ a.conns;
  users = b.users ∙ a.users;
  tokens = b.tokens ∙ a.tokens;
  generations = b.generations ∙ a.generations;
  ids = λ x. b.ids x ∙ a.ids x;
  uids = λ x. b.uids x ∙ a.uids x;
}

subscribe_conn-Keeps :
    (s : Session) (channel : String) (r : ℕ) → Keeps s (subscribe_conn s channel r)
unfolding subscribe_conn
subscribe_conn-Keeps s channel r = record {
  conns = refl;
  users = refl;
  tokens = refl;
  generations = refl;
  ids = λ x. ground arith;
  uids = λ x. ground arith;
}

unsubscribe_conn-Keeps :
    (s : Session) (channel : String) (r : ℕ) → Keeps s (unsubscribe_conn s channel r)
unfolding unsubscribe_conn
unsubscribe_conn-Keeps s channel r = record {
  conns = ground arith;
  users = ground arith;
  tokens = ground arith;
  generations = ground arith;
  ids = λ x. ground arith;
  uids = λ x. ground arith;
}

subscribe_all-Keeps :
    (index : Dict ℕ ℕ) (targets : List ℕ) (channel : String) (s : Session)
    → Keeps s (subscribe_all index targets channel s)
unfolding subscribe_all
subscribe_all-Keeps index [] channel s = Keeps-refl s
subscribe_all-Keeps index (target ∷ rest) channel s = elim (Option-cases (lookup target index)) [
  | inl e ↦ rw e (subscribe_all-Keeps index rest channel s)
  | inr (r, e) ↦
      rw e
        (Keeps-trans (subscribe_conn-Keeps s channel r) (subscribe_all-Keeps index rest channel _))
]

unsubscribe_all-Keeps :
    (index : Dict ℕ ℕ) (targets : List ℕ) (channel : String) (s : Session)
    → Keeps s (unsubscribe_all index targets channel s)
unfolding unsubscribe_all
unsubscribe_all-Keeps index [] channel s = Keeps-refl s
unsubscribe_all-Keeps index (target ∷ rest) channel s = elim (Option-cases (lookup target index)) [
  | inl e ↦ rw e (unsubscribe_all-Keeps index rest channel s)
  | inr (r, e) ↦ rw e (
      Keeps-trans (unsubscribe_conn-Keeps s channel r) (unsubscribe_all-Keeps index rest channel _))
]

pub subscribe-Keeps :
    (s : Session) (kind : Kind) (targets : List ℕ) (channel : String)
    → Keeps s (subscribe s kind targets channel).1
unfolding subscribe index_of
subscribe-Keeps s kind [] channel = Keeps-refl s
subscribe-Keeps s conn (t ∷ ts) channel = subscribe_all-Keeps s.conns (t ∷ ts) channel s
subscribe-Keeps s user (t ∷ ts) channel = subscribe_all-Keeps s.users (t ∷ ts) channel s
subscribe-Keeps s (other k) (t ∷ ts) channel = Keeps-refl s

pub unsubscribe-Keeps :
    (s : Session) (kind : Kind) (targets : List ℕ) (channel : String)
    → Keeps s (unsubscribe s kind targets channel).1
unfolding unsubscribe index_of
unsubscribe-Keeps s kind [] channel = Keeps-refl s
unsubscribe-Keeps s conn (t ∷ ts) channel = unsubscribe_all-Keeps s.conns (t ∷ ts) channel s
unsubscribe-Keeps s user (t ∷ ts) channel = unsubscribe_all-Keeps s.users (t ∷ ts) channel s
unsubscribe-Keeps s (other k) (t ∷ ts) channel = Keeps-refl s
