-- ===== src/Session/Channels.antt =====
-- session/session.go: subscribing sessions to channels. A connection notes its channels in its
-- attributes, and the registry keeps the subscribers of each channel.
pub mod Index
pub mod Frame
pub mod Invariant
use due.Base.{
  List, String, [], add, contains, if◌then◌else◌, none, remove, some, ℕ, ◌∷◌, nat_eq, string_eq,
}
use due.Base.Dict.{Dict, insert, lookup}
use due.Errors.{Result, err, invalid_session_kind, ok}
use due.Session.{Kind, Session, conn, drop_subscriber, other, update, user}

-- `conns = s.conns` or `conns = s.users`, by the kind.
unfoldable pub index_of : Session → Kind → Result (Dict ℕ ℕ)
index_of s conn = ok s.conns
index_of s user = ok s.users
index_of s (other k) = err invalid_session_kind

abbrev pub set_attr : Session → ℕ → List String → Session
set_attr s r attr = record s { heap = update s.heap r (record (s.heap r) { attr = attr }) }

unfoldable pub add_subscriber : String → ℕ → Dict String (List ℕ) → Dict String (List ℕ)
add_subscriber channel r m = elim (lookup channel m) [
  | none ↦ insert channel (r ∷ []) m
  | some rs ↦ insert channel (add r rs) m
]

unfoldable pub subscribe_conn : Session → String → ℕ → Session
subscribe_conn s channel r = record (set_attr s r (add channel (s.heap r).attr)) {
  channels = add_subscriber channel r s.channels;
}

unfoldable pub subscribe_all : Dict ℕ ℕ → List ℕ → String → Session → Session
subscribe_all index [] channel s = s
subscribe_all index (target ∷ rest) channel s =
    subscribe_all index rest channel
      (elim (lookup target index) [ none ↦ s | some r ↦ subscribe_conn s channel r ])

unfoldable pub subscribe : Session → Kind → List ℕ → String → Result (Unit {0}) × Session
subscribe s kind [] channel = (ok tt, s)
subscribe s kind (target ∷ rest) channel = elim (index_of s kind) [
  | err e ↦ (err e, s)
  | ok index ↦ (ok tt, subscribe_all index (target ∷ rest) channel s)
]

-- `Del` tells whether the attribute was there.
unfoldable pub unsubscribe_conn : Session → String → ℕ → Session
unsubscribe_conn s channel r =
    if contains channel (s.heap r).attr
    then record (set_attr s r (remove channel (s.heap r).attr)) {
      channels = drop_subscriber channel r s.channels;
    }
    else s

unfoldable pub unsubscribe_all : Dict ℕ ℕ → List ℕ → String → Session → Session
unsubscribe_all index [] channel s = s
unsubscribe_all index (target ∷ rest) channel s =
    unsubscribe_all index rest channel
      (elim (lookup target index) [ none ↦ s | some r ↦ unsubscribe_conn s channel r ])

unfoldable pub unsubscribe : Session → Kind → List ℕ → String → Result (Unit {0}) × Session
unsubscribe s kind [] channel = (ok tt, s)
unsubscribe s kind (target ∷ rest) channel = elim (index_of s kind) [
  | err e ↦ (err e, s)
  | ok index ↦ (ok tt, unsubscribe_all index (target ∷ rest) channel s)
]
