-- ===== src/Session/History.antt =====
-- Histories of a registry: the calls that a gate makes, in any order, from the empty registry.
use due.Base.{List, String, none, some, ℕ, ◌-◌, ◌<◌, ◌^◌, ◌≡◌, ◌≢◌, nat_eq, string_eq}
use due.Base.Dict.{lookup}
use due.Session.{Kind, Session, Token, add_conn, bind, bind_external, init_conn, rem_conn, unbind}
use due.Session.Invariant.{
  add_conn-IsBound, bind-IsBound, bind_external-IsBound, rem_conn-IsBound, unbind-IsBound,
}
use due.Session.Numbering.{
  add_conn-IsNumbered, bind-IsNumbered, bind_external-IsNumbered, generation_of,
  rem_conn-IsNumbered, unbind-IsNumbered,
}
use due.Session.Channels.{subscribe, unsubscribe}
use due.Session.Channels.Invariant.{
  add_conn-IsSubscribed, bind-IsSubscribed, bind_external-IsSubscribed, rem_conn-IsSubscribed,
  unbind-IsSubscribed,
}
use due.Session.Consistent.{IsConsistent, subscribe-IsConsistent, unsubscribe-IsConsistent}

-- One call. A server hands over a connection with an identifier that is not in use and an object
-- that is not registered, and takes back a registered one. A gate binds no user 0 (`provider.Bind`
-- in cluster/gate/provider.go), a generation counter has room, and a token of the ownership store is
-- newer than the tokens before it.
pub data Step (s : Session) : Session → Type 0 where
  connect :
      (r id : ℕ)
      → lookup (s.heap r).id s.conns ≢ some r
      → lookup id s.conns ≡ none
      → Step s (add_conn (init_conn s r id) r)
  disconnect : (r : ℕ) → lookup (s.heap r).id s.conns ≡ some r → Step s (rem_conn s r)
  bind_local :
      (cid uid : ℕ) → uid ≢ 0 → generation_of s uid < 2 ^ 64 - 1 → Step s (bind s cid uid).1
  bind_owned :
      (cid uid : ℕ) (token : Token)
      → generation_of s uid < token.generation
      → Step s (bind_external s cid uid token).1
  release : (uid : ℕ) → Step s (unbind s uid).1
  join :
      (kind : Kind) (targets : List ℕ) (channel : String)
      → Step s (subscribe s kind targets channel).1
  leave :
      (kind : Kind) (targets : List ℕ) (channel : String)
      → Step s (unsubscribe s kind targets channel).1

pub data Reach (s : Session) : Session → Type 0 where
  here : Reach s s
  next : {t u : Session} → Reach s t → Step t u → Reach s u

pub Step-IsConsistent : {s t : Session} → Step s t → IsConsistent s → IsConsistent t
Step-IsConsistent {s} (connect r id free fresh) v = record {
  bindings = add_conn-IsBound s r id v.bindings free fresh;
  numbers = add_conn-IsNumbered s r id v.bindings free v.numbers;
  subscriptions = add_conn-IsSubscribed s r id free fresh v.subscriptions;
}
Step-IsConsistent {s} (disconnect r held) v = record {
  bindings = rem_conn-IsBound s r v.bindings held;
  numbers = rem_conn-IsNumbered s r v.bindings held v.numbers;
  subscriptions = rem_conn-IsSubscribed s r v.bindings held v.subscriptions;
}
Step-IsConsistent {s} (bind_local cid uid real room) v = record {
  bindings = bind-IsBound s cid uid v.bindings real;
  numbers = bind-IsNumbered s cid uid v.bindings real room v.numbers;
  subscriptions = bind-IsSubscribed s cid uid v.subscriptions;
}
Step-IsConsistent {s} (bind_owned cid uid token newer) v = record {
  bindings = bind_external-IsBound s cid uid token v.bindings;
  numbers = bind_external-IsNumbered s cid uid token v.bindings v.numbers;
  subscriptions = bind_external-IsSubscribed s cid uid token v.subscriptions;
}
Step-IsConsistent {s} (release uid) v = record {
  bindings = unbind-IsBound s uid v.bindings;
  numbers = unbind-IsNumbered s uid v.bindings v.numbers;
  subscriptions = unbind-IsSubscribed s uid v.subscriptions;
}
Step-IsConsistent {s} (join kind targets channel) v =
    subscribe-IsConsistent s kind targets channel v
Step-IsConsistent {s} (leave kind targets channel) v =
    unsubscribe-IsConsistent s kind targets channel v

-- A history of calls that starts in a consistent registry ends in one, if its steps meet the
-- conditions of `Step`: a connection comes with an object that is not registered and an identifier
-- that is not in use, and a registered one goes; `Bind` is called with no user 0 and while the
-- user's generation counter has room; and `BindToken` with a token newer than the user's counter;
-- unbinding, subscribing and unsubscribing are free. In a consistent registry the maps of
-- connections, users and tokens agree with each other and with the connection objects, no token is
-- ahead of its user's generation, and the channel index agrees with the attributes of the
-- registered connections.
pub Reach-IsConsistent : {s t : Session} → IsConsistent s → Reach s t → IsConsistent t
Reach-IsConsistent v here = v
Reach-IsConsistent v (next r step) = Step-IsConsistent step (Reach-IsConsistent v r)
