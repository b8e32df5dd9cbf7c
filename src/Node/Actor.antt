-- ===== src/Node/Actor.antt =====
-- cluster/node/actor.go: an actor, which handles what it is sent one by one. Contexts, handlers and
-- functions are numbers; `mailbox` and `calls` are the two channels, which are never full here.
use due.Base.{
  Bool, List, Option, String, [], add, contains, eqb, false, if◌then◌else◌, leb, none, remove, some,
  true, ℕ, ◌&&◌, ◌++◌, ◌∷◌, nat_eq, string_eq,
}
use due.Base.Dict.{Dict, insert, lookup}
use due.Base.Words.{inc64}
use Prim.Native.String.{◌++◌ as text_append}

pub data Lifecycle : Type 0 where
  unstart started destroyed : Lifecycle

abbrev pub is_started : Lifecycle → Bool
is_started started = true
is_started _ = false

-- actor_options.go; no timeout is 0.
pub record ActorOptions : Type 0 where
  pub id : String
  pub kind : String
  pub wait : Bool
  pub dispatch : Bool
  pub idle_timeout : ℕ

-- What an actor that runs is asked to do in its own loop.
pub data Call : Type 0 where
  apply : ℕ → Call
  set_route : ℕ → ℕ → Call
  set_event : ℕ → ℕ → Call
  set_default : ℕ → Call

pub record Actor : Type 0 where
  pub opts : ActorOptions
  pub state : Lifecycle
  pub routes : Dict ℕ ℕ
  pub events : Dict ℕ ℕ
  pub default_route_handler : Option ℕ
  pub mailbox : List ℕ
  pub calls : List Call
  pub is_closed : Bool
  pub binds : List ℕ
  -- The generation that the running timer will ask to release.
  pub idle_timer : Option ℕ
  pub idle_generation : ℕ
  pub is_complete : Bool

abbrev pub pid_of : String → String → String
pid_of kind id = text_append kind (text_append "/" id)

abbrev pub pid : Actor → String
pid a = pid_of a.opts.kind a.opts.id

-- What `spawn` makes before `Init`.
abbrev pub new_actor : ActorOptions → Actor
new_actor opts = record {
  opts = opts;
  state = started;
  routes = [];
  events = [];
  default_route_handler = none;
  mailbox = [];
  calls = [];
  is_closed = false;
  binds = [];
  idle_timer = none;
  idle_generation = 0;
  is_complete = false;
}

-- `Active`, and `Touch`.
unfoldable pub active : Actor → Actor
active a =
    if is_started a.state
    then record a { idle_generation = inc64 a.idle_generation; idle_timer = none }
    else a

unfoldable pub idle : Actor → Actor
idle a =
    if leb a.opts.idle_timeout 0
    then a
    else if is_started a.state
    then record a {
      idle_generation = inc64 a.idle_generation;
      idle_timer = some (inc64 a.idle_generation);
    }
    else a

unfoldable pub cancel_idle_release : Actor → Actor
cancel_idle_release a = record a { idle_generation = inc64 a.idle_generation; idle_timer = none }

-- What the timer of a generation does before the guard of the application is asked: whether it goes
-- on, and the actor.
unfoldable pub release_idle_generation : Actor → ℕ → Bool × Actor
release_idle_generation a generation =
    if is_started a.state && eqb a.idle_generation generation
    then (true, record a { idle_timer = none })
    else (false, a)

-- What it does when the guard refuses: the same generation is tried again later.
unfoldable pub retry_idle_generation : Actor → ℕ → Actor
retry_idle_generation a generation =
    if is_started a.state && eqb a.idle_generation generation
    then record a { idle_timer = some generation }
    else a

unfoldable pub try_invoke : Actor → ℕ → Bool × Actor
try_invoke a fn =
    if is_started a.state
    then (true, record a { calls = a.calls ++ (apply fn ∷ []) })
    else (false, a)

-- `AddRouteHandler`, and its kin.
unfoldable pub add_route_handler : Actor → ℕ → ℕ → Actor
add_route_handler a route handler = elim a.state [
  | unstart ↦ record a { routes = insert route handler a.routes }
  | started ↦ record a { calls = a.calls ++ (set_route route handler ∷ []) }
  | destroyed ↦ a
]

unfoldable pub add_event_handler : Actor → ℕ → ℕ → Actor
add_event_handler a event handler = elim a.state [
  | unstart ↦ record a { events = insert event handler a.events }
  | started ↦ record a { calls = a.calls ++ (set_event event handler ∷ []) }
  | destroyed ↦ a
]

unfoldable pub set_default_route_handler : Actor → ℕ → Actor
set_default_route_handler a handler = elim a.state [
  | unstart ↦ record a { default_route_handler = some handler }
  | started ↦ record a { calls = a.calls ++ (set_default handler ∷ []) }
  | destroyed ↦ a
]

-- `Next`: a context for an actor that does not run is dropped.
unfoldable pub next : Actor → ℕ → Actor
next a ctx = if is_started a.state then record a { mailbox = a.mailbox ++ (ctx ∷ []) } else a

unfoldable pub bind_user : Actor → ℕ → Actor
bind_user a uid = record a { binds = add uid a.binds }

unfoldable pub unbind_user : Actor → ℕ → Bool × Actor
unbind_user a uid = (contains uid a.binds, record a { binds = remove uid a.binds })

-- `dispatch`: the handler that a request or an event from the mailbox is given to.
unfoldable pub handler_of : Actor → ℕ → Option ℕ
handler_of a route = elim (lookup route a.routes) [
  | some handler ↦ some handler
  | none ↦ a.default_route_handler
]

unfoldable pub event_handler_of : Actor → ℕ → Option ℕ
event_handler_of a event = lookup event a.events
