-- ===== src/Node/Router/Tests.antt =====
-- cluster/node/router.go: concrete runs.
use due.Base.{[], arith, false, none, refl, some, true, ◌∷◌, ◌≡◌, string_eq, nat_eq}
use due.Base.Dict.{insert, lookup}
use due.Errors.{Error, ok}
use due.Session.{Token}
use due.Ownership.Memory.{IsWord, Store, acquire, acquire-IsWord, memory_store, new_store}
use due.Node.Router.{NodeRequest, RouteEntity, Router, handle, refused}
use due.Node.Router.Fencing.{acquire-handle}

-- The player entered through one gate, and then through another.
abbrev first_owner : Store
first_owner = (acquire none new_store 5).1

new_store-IsWord : IsWord new_store
unfolding new_store lookup
new_store-IsWord = record { fits = λ u. omega arith; counted = λ u t h. cc }

abbrev second_token : Token
second_token = record { uid = 5; generation = 2 }

second_acquire : (acquire none first_owner 5).0 ≡ ok second_token
unfolding acquire new_store lookup insert
second_acquire = refl

abbrev bag_route : RouteEntity
bag_route = record {
  handler = 40;
  options = record { internal = false; stateful = true; authorized = true; middlewares = [] };
}

abbrev router : Router
router = record {
  routes = (7, bag_route) ∷ [];
  pre_route_handler = none;
  default_route_handler = none;
  request_middlewares = [];
}

abbrev late_request : NodeRequest
late_request = record {
  ctx = none;
  gid = "gate-1";
  uid = 5;
  token = record { uid = 5; generation = 1 };
  route = 7;
}

acquire-handle_example :
    (e : Error) × (handle memory_store (some (acquire none first_owner 5).1) router late_request
      ≡ refused e)
unfolding lookup insert acquire new_store
acquire-handle_example =
    acquire-handle memory_store first_owner none router late_request bag_route second_token
      (acquire-IsWord none new_store 5 new_store-IsWord) second_acquire (omega arith) refl refl refl
