-- ===== src/Node/Router.antt =====
-- cluster/node/router.go: which handlers a request of a node reaches. Handlers and middlewares are
-- numbers; what `Context` answers is given with the request.
pub mod Fencing
pub mod Tests
use due.Base.{
  Bool, List, Option, String, [], eqb, false, if◌then◌else◌, none, not, some, ℕ, ◌++◌, ◌==◌, ◌||◌,
  nat_eq, string_eq,
}
use due.Base.Dict.{Dict, insert, lookup}
use due.Base.Words.{is_positive64}
use due.Errors.{Error, err, ok, stale_session}
use due.Session.{Token, token_eq}
use due.Ownership.{Context, OwnershipStore}

pub record RouteOptions : Type 0 where
  pub internal : Bool
  pub stateful : Bool
  pub authorized : Bool
  pub middlewares : List ℕ

pub record RouteEntity : Type 0 where
  pub handler : ℕ
  pub options : RouteOptions

pub record Router : Type 0 where
  pub routes : Dict ℕ RouteEntity
  pub pre_route_handler : Option ℕ
  pub default_route_handler : Option ℕ
  pub request_middlewares : List ℕ

-- No gate is the empty identifier.
pub record NodeRequest : Type 0 where
  pub ctx : Context
  pub gid : String
  pub uid : ℕ
  pub token : Token
  pub route : ℕ

abbrev pub no_options : RouteOptions
no_options = record { internal = false; stateful = false; authorized = false; middlewares = [] }

-- `AddRouteHandler`; a node that is not shut ignores the call.
unfoldable pub add_route : Bool → Router → ℕ → ℕ → Option RouteOptions → Router
add_route is_shut r route handler opts =
    let options : RouteOptions = elim opts [ none ↦ no_options | some o ↦ o ] in
    if not is_shut then r else record r {
      routes = insert route (record { handler = handler; options = options }) r.routes;
    }

-- `AddRouteHandler` of a group with these middlewares.
unfoldable pub add_group_route : List ℕ → Bool → Router → ℕ → ℕ → Option RouteOptions → Router
add_group_route group is_shut r route handler opts =
    let options : RouteOptions = elim opts [ none ↦ no_options | some o ↦ o ] in
    add_route is_shut r route handler
      (some (record options { middlewares = group ++ options.middlewares }))

unfoldable pub check_route_stateful : Router → ℕ → Option Bool
check_route_stateful r route = elim (lookup route r.routes) [
  | none ↦ none
  | some e ↦ some e.options.stateful
]

unfoldable pub check_route_authorized : Router → ℕ → Option Bool
check_route_authorized r route = elim (lookup route r.routes) [
  | none ↦ none
  | some e ↦ some e.options.authorized
]

-- What becomes of a request: the handler before the route's, the chain of middlewares and, at its
-- end, the handler.
pub data Handled : Type 0 where
  unregistered : Handled
  refused : Error → Handled
  served : Option ℕ → List ℕ → ℕ → Handled

module _ (store : OwnershipStore) where
  -- The part of `validateSession` for a stateful route and a request from a gate.
  unfoldable pub check_owner : store.State → NodeRequest → Option Error
  check_owner s req =
      if not (is_positive64 req.uid)
        || not (eqb req.token.uid req.uid)
        || eqb req.token.generation 0
      then some stale_session
      else elim (store.current req.ctx s req.uid) [
        | err e ↦ some e
        | ok owner ↦ elim owner [
          | none ↦ some stale_session
          | some t ↦ if token_eq t req.token then none else some stale_session
        ]
      ]

  -- A node need not have a store.
  unfoldable pub validate_session : Option store.State → NodeRequest → RouteEntity → Option Error
  validate_session s req route = elim s [
    | none ↦ none
    | some t ↦ if not route.options.stateful || (req.gid == "") then none else check_owner t req
  ]

  unfoldable pub handle : Option store.State → Router → NodeRequest → Handled
  handle s r req = elim (lookup req.route r.routes) [
    | some entity ↦ elim (validate_session s req entity) [
      | some e ↦ refused e
      | none ↦
          served r.pre_route_handler (r.request_middlewares ++ entity.options.middlewares)
            entity.handler
    ]
    | none ↦ elim r.default_route_handler [
      | none ↦ unregistered
      | some handler ↦ served r.pre_route_handler r.request_middlewares handler
    ]
  ]
