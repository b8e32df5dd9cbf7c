-- ===== src/Dispatcher.antt =====
-- internal/dispatcher: the routes and the endpoints that a client of the cluster chooses from. `E` is
-- the parsed endpoint, and `parse` is `endpoint.ParseEndpoint` of core/endpoint. The weighted
-- choice (`weightRoundRobinDispatch`) and the events are not modelled.
pub mod Replace
pub mod Rounds
pub mod Tests
use due.Base.Words.{inc64}
use due.Base.{
  Bool, List, Option, String, [], if◌then◌else◌, length, none, some, suc, zero, ℕ, ◌%◌, ◌++◌, ◌==◌,
  ◌∷◌, nat_eq, string_eq,
}
use due.Errors.{Result, err, not_found_endpoint, not_found_route, ok}
use due.Base.Dict.{Dict, insert, lookup}

-- registry.Route, as far as the dispatcher reads it.
pub record RouteItem : Type 0 where
  pub id : ℕ
  pub internal : Bool
  pub stateful : Bool
  pub authorized : Bool

pub record ServiceInstance : Type 0 where
  pub ins_id : String
  pub alias : String
  pub state : String
  pub endpoint : String
  pub weight : ℕ
  pub routes : List RouteItem

pub record ServiceEndpoint (E : Type 0) : Type 0 where
  pub ins_id : String
  pub state : String
  pub endpoint : E
  pub weight : ℕ

-- The endpoints in the state work, busy, hang and shut, and all of them by instance.
pub record Abstract (E : Type 0) : Type 0 where
  pub endpoints1 : List (ServiceEndpoint E)
  pub endpoints2 : List (ServiceEndpoint E)
  pub endpoints3 : List (ServiceEndpoint E)
  pub endpoints4 : List (ServiceEndpoint E)
  pub endpoints5 : Dict String (ServiceEndpoint E)

pub record DispatchRoute (E : Type 0) : Type 0 where
  pub abstract : Abstract E
  pub route : RouteItem
  pub group : String
  pub counter : ℕ

pub record Dispatcher (E : Type 0) : Type 0 where
  pub routes : Dict ℕ (DispatchRoute E)
  pub endpoints : Dict String E
  pub instances : Dict String ServiceInstance

-- `list[i]`; `none` is a panic.
abbrev pub nth {ℓ} : {A : Type ℓ} → ℕ → List A → Option A
nth i [] = none
nth zero (x ∷ xs) = some x
nth (suc i) (x ∷ xs) = nth i xs

module _ {E : Type 0} where
  abbrev pub new_abstract : Abstract E
  new_abstract = record {
    endpoints1 = [];
    endpoints2 = [];
    endpoints3 = [];
    endpoints4 = [];
    endpoints5 = [];
  }

  pub add_service_endpoint : ServiceEndpoint E → Abstract E → Abstract E
  add_service_endpoint se a =
      let all = insert se.ins_id se a.endpoints5 in
      if se.state == "work"
      then record a { endpoints1 = a.endpoints1 ++ (se ∷ []); endpoints5 = all }
      else if se.state == "busy"
      then record a { endpoints2 = a.endpoints2 ++ (se ∷ []); endpoints5 = all }
      else if se.state == "hang"
      then record a { endpoints3 = a.endpoints3 ++ (se ∷ []); endpoints5 = all }
      else if se.state == "shut"
      then record a { endpoints4 = a.endpoints4 ++ (se ∷ []); endpoints5 = all }
      else record a { endpoints5 = all }

  abbrev pub new_route : String → RouteItem → DispatchRoute E
  new_route group item = record {
    abstract = new_abstract;
    route = item;
    group = group;
    counter = 0;
  }

  pub direct_dispatch : String → DispatchRoute E → Result E
  direct_dispatch ins_id r = elim (lookup ins_id r.abstract.endpoints5) [
    | none ↦ err not_found_endpoint
    | some se ↦ ok se.endpoint
  ]

  abbrev pub chosen : Option (ServiceEndpoint E) → Option E
  chosen none = none
  chosen (some se) = some se.endpoint

  -- One turn over a list that is not empty: `counter.Add(1) % n` is the index.
  pub turn : List (ServiceEndpoint E) → DispatchRoute E → Option E × DispatchRoute E
  turn es r = let c = inc64 r.counter in (chosen (nth (c % length es) es), record r { counter = c })

  -- The working endpoints first, then the busy ones.
  abbrev pub rounds :
      List (ServiceEndpoint E)
      → List (ServiceEndpoint E)
      → DispatchRoute E
      → Result (Option E) × DispatchRoute E
  rounds (x ∷ xs) busy r = let (e, r') = turn (x ∷ xs) r in (ok e, r')
  rounds [] (x ∷ xs) r = let (e, r') = turn (x ∷ xs) r in (ok e, r')
  rounds [] [] r = (err not_found_endpoint, r)

  pub round_robin_dispatch : DispatchRoute E → Result (Option E) × DispatchRoute E
  round_robin_dispatch r = rounds r.abstract.endpoints1 r.abstract.endpoints2 r

  pub find_endpoint : String → Dispatcher E → Result E
  find_endpoint ins_id d = elim (lookup ins_id d.endpoints) [
    | none ↦ err not_found_endpoint
    | some ep ↦ ok ep
  ]

  pub find_route : ℕ → Dispatcher E → Result (DispatchRoute E)
  find_route id d = elim (lookup id d.routes) [ none ↦ err not_found_route | some r ↦ ok r ]

  -- The endpoint of a service under each route that it lists.
  pub add_routes :
      ServiceInstance → E → List RouteItem → Dict ℕ (DispatchRoute E) → Dict ℕ (DispatchRoute E)
  add_routes service ep [] routes = routes
  add_routes service ep (item ∷ items) routes =
      let r : DispatchRoute E = elim (lookup item.id routes) [
        | none ↦ new_route service.alias item
        | some r ↦ r
      ] in
      let se : ServiceEndpoint E = record {
        ins_id = service.ins_id;
        state = service.state;
        endpoint = ep;
        weight = service.weight;
      } in
      add_routes service ep items
        (insert item.id (record r { abstract = add_service_endpoint se r.abstract }) routes)

  abbrev pub empty : Dispatcher E
  empty = record { routes = []; endpoints = []; instances = [] }

module _ {E : Type 0} (parse : String → Option E) where
  pub add_services : List ServiceInstance → Dispatcher E → Dispatcher E
  add_services [] d = d
  add_services (service ∷ services) d = elim (parse service.endpoint) [
    | none ↦ add_services services d
    | some ep ↦ add_services services record {
      routes = add_routes service ep service.routes d.routes;
      endpoints = insert service.ins_id ep d.endpoints;
      instances = insert service.ins_id service d.instances;
    }
  ]

  -- `ReplaceServices`: what was there before is forgotten.
  pub replace_services : List ServiceInstance → Dispatcher E → Dispatcher E
  replace_services services d = add_services services empty
