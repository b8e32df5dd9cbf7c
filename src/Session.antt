-- ===== src/Session.antt =====
-- session/session.go: the registry of a gate's connections and users, and the binding of the two.
-- A connection is a number that names an object of the heap, as a Go pointer does. Int64 identifiers
-- are bit patterns. Each method here runs under the registry's lock, so it is one step on the state.
pub mod Facts
pub mod Rebind
pub mod Channels
pub mod Invariant
pub mod Numbering
pub mod Consistent
pub mod History
pub mod Delivery
pub mod Fencing
pub mod Binding
pub mod Tests
use due.Base.{
  Bool, List, String, [], eqb, false, if◌then◌else◌, leb, length, none, not, remove, some, true, ℕ,
  ◌&&◌, ◌||◌, ◌∷◌, nat_eq, string_eq,
}
use due.Base.Dict.{Dict, erase, insert, lookup, lookup_or}
use due.Base.Words.{inc64, is_positive64}
use due.Errors.{Result, err, invalid_argument, invalid_session_kind, not_found_session, ok}

-- `other` stands for every value of the integer type that has no name.
pub data Kind : Type 0 where
  conn user : Kind
  other : ℕ → Kind

pub record Token : Type 0 where
  pub uid : ℕ
  pub generation : ℕ

abbrev pub zero_token : Token
zero_token = record { uid = 0; generation = 0 }

abbrev pub token_eq : Token → Token → Bool
token_eq t u = eqb t.uid u.uid && eqb t.generation u.generation

-- What the registry sees of a `network.Conn`; `attr` holds the keys of its attributes.
pub record Conn : Type 0 where
  pub id : ℕ
  pub uid : ℕ
  pub attr : List String

pub record Session : Type 0 where
  pub conns : Dict ℕ ℕ
  pub users : Dict ℕ ℕ
  pub tokens : Dict ℕ Token
  pub generations : Dict ℕ ℕ
  pub channels : Dict String (List ℕ)
  -- The connection objects behind the references.
  pub heap : ℕ → Conn

unfoldable pub new_session : (ℕ → Conn) → Session
new_session heap = record {
  conns = [];
  users = [];
  tokens = [];
  generations = [];
  channels = [];
  heap = heap;
}

abbrev pub update : (ℕ → Conn) → ℕ → Conn → ℕ → Conn
update heap r c x = if eqb x r then c else heap x

-- `conn.Bind(uid)` and `conn.Unbind()`.
abbrev pub set_uid : Session → ℕ → ℕ → Session
set_uid s r uid = record s { heap = update s.heap r (record (s.heap r) { uid = uid }) }

-- `current, ok := s.users[uid]; ok && current == conn`
abbrev pub is_owner : Session → ℕ → ℕ → Bool
is_owner s uid r = elim (lookup uid s.users) [ none ↦ false | some c ↦ eqb c r ]

-- A network server takes the object `r` for a new connection: `init` in network/tcp/server_conn.go
-- and its kin for KCP and WebSocket. The object may have served a connection before.
unfoldable pub init_conn : Session → ℕ → ℕ → Session
init_conn s r id = record s { heap = update s.heap r (record { id = id; uid = 0; attr = [] }) }

unfoldable pub get_conn : Session → Kind → ℕ → Result ℕ
get_conn s conn target = elim (lookup target s.conns) [
  | none ↦ err not_found_session
  | some r ↦ ok r
]
get_conn s user target = elim (lookup target s.users) [
  | none ↦ err not_found_session
  | some r ↦ ok r
]
get_conn s (other k) target = err invalid_session_kind

pub next_generation : Session → ℕ → ℕ × Session
next_generation s uid =
    let g = inc64 (lookup_or 0 uid s.generations) in
    let g' = if eqb g 0 then 1 else g in
    (g', record s { generations = insert uid g' s.generations })

-- The session of a user that another connection holds is taken from it.
unfoldable pub unbind_owner : Session → ℕ → ℕ → Session
unbind_owner s r uid = elim (lookup uid s.users) [
  | none ↦ s
  | some c ↦ if eqb c r then s else set_uid s c 0
]

unfoldable pub install : Session → ℕ → ℕ → Token → Session
install s r uid token =
    let t = set_uid (unbind_owner s r uid) r uid in
    record t { users = insert uid r t.users; tokens = insert (t.heap r).id token t.tokens }

unfoldable pub bind_token : Session → ℕ → ℕ → Token → Session
bind_token s r uid token =
    let old = (s.heap r).uid in
    if eqb old 0
    then install s r uid token
    else if eqb old uid
    then if is_owner s uid r
      then record s { tokens = insert (s.heap r).id token s.tokens }
      else install s r uid token
    else if is_owner s old r
    then install (record s { users = erase old s.users }) r uid token
    else install s r uid token

unfoldable pub add_conn : Session → ℕ → Session
add_conn s r =
    let c = s.heap r in
    let t = record s { conns = insert c.id r s.conns } in
    if eqb c.uid 0
    then t
    else let (g, t') = next_generation t c.uid in
      record t' {
        users = insert c.uid r t'.users;
        tokens = insert c.id (record { uid = c.uid; generation = g }) t'.tokens;
      }

-- `doUnsubscribe`: a channel goes with its last subscriber.
pub drop_subscriber : String → ℕ → Dict String (List ℕ) → Dict String (List ℕ)
drop_subscriber channel r m = elim (lookup channel m) [
  | none ↦ m
  | some rs ↦ elim (remove r rs) [ [] ↦ erase channel m | x ∷ xs ↦ insert channel (x ∷ xs) m ]
]

-- The visit of a connection's attributes.
pub drop_channels : List String → ℕ → Dict String (List ℕ) → Dict String (List ℕ)
drop_channels [] r m = m
drop_channels (channel ∷ rest) r m = drop_channels rest r (drop_subscriber channel r m)

pub rem_conn_with_token : Session → ℕ → (ℕ × Token) × Session
rem_conn_with_token s r =
    let c = s.heap r in
    let token = lookup_or zero_token c.id s.tokens in
    let users =
      if eqb c.uid 0
      then s.users
      else if is_owner s c.uid r
      then erase c.uid s.users
      else s.users in
    (
      (c.uid, token),
      record s {
        conns = erase c.id s.conns;
        tokens = erase c.id s.tokens;
        users = users;
        channels = drop_channels c.attr r s.channels;
      },
    )

pub rem_conn : Session → ℕ → Session
unfolding rem_conn_with_token
rem_conn s r = (rem_conn_with_token s r).1

pub has : Session → Kind → ℕ → Result Bool
has s conn target = elim (lookup target s.conns) [ none ↦ ok false | some r ↦ ok true ]
has s user target = elim (lookup target s.users) [ none ↦ ok false | some r ↦ ok true ]
has s (other k) target = err invalid_session_kind

-- `Bind` and `BindToken` return no value but the error.
pub bind : Session → ℕ → ℕ → Result (Unit {0}) × Session
bind s cid uid = elim (get_conn s conn cid) [
  | err e ↦ (err e, s)
  | ok r ↦
      if eqb (s.heap r).uid uid
      then (ok tt, s)
      else let (g, t) = next_generation s uid in
        (ok tt, bind_token t r uid (record { uid = uid; generation = g }))
]

unfoldable pub raise_generation : Session → ℕ → ℕ → Session
raise_generation s uid g =
    if leb g (lookup_or 0 uid s.generations)
    then s
    else record s { generations = insert uid g s.generations }

abbrev pub invalid_token : ℕ → Token → Bool
invalid_token uid token =
    not (is_positive64 uid) || not (eqb token.uid uid) || eqb token.generation 0

unfoldable pub bind_external : Session → ℕ → ℕ → Token → Result (Unit {0}) × Session
bind_external s cid uid token =
    if invalid_token uid token then (err invalid_argument, s) else elim (get_conn s conn cid) [
      | err e ↦ (err e, s)
      | ok r ↦ (ok tt, raise_generation (bind_token s r uid token) uid token.generation)
    ]

pub unbind : Session → ℕ → Result ℕ × Session
unbind s uid = elim (get_conn s user uid) [
  | err e ↦ (err e, s)
  | ok r ↦ (ok (s.heap r).id, record (set_uid s r 0) { users = erase uid s.users })
]

unfoldable pub token_of : Session → Kind → ℕ → Result Token
token_of s kind target = elim (get_conn s kind target) [
  | err e ↦ err e
  | ok r ↦ ok (lookup_or zero_token (s.heap r).id s.tokens)
]

unfoldable pub is_current : Session → Token → Bool
is_current s token =
    if eqb token.uid 0 || eqb token.generation 0 then false else elim (lookup token.uid s.users) [
      | none ↦ false
      | some r ↦ token_eq (lookup_or zero_token (s.heap r).id s.tokens) token
    ]

-- `len` of the registry's maps.
pub stat : Session → Kind → Result ℕ
stat s conn = ok (length s.conns)
stat s user = ok (length s.users)
stat s (other k) = err invalid_session_kind
