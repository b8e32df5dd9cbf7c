-- ===== src/Dispatcher/Replace.antt =====
-- `ReplaceServices` and the lookups of internal/dispatcher after it.
use due.Base.{
  Bool, List, Option, Option-cases, String, [], ap, arith, false, if◌then◌else◌, inl, inr, none,
  refl, some, true, ℕ, ◌==◌, ◌||◌, ◌∙◌, ◌∷◌, ◌≡◌, nat_eq, string_eq,
}
use due.Dispatcher.{
  DispatchRoute, Dispatcher, RouteItem, ServiceInstance, add_routes, add_services, empty,
  find_endpoint, find_route, replace_services,
}
use due.Base.Dict.{Dict, insert, lookup, lookup-insert}
use due.Errors.{Error, Result, err, not_found_endpoint, ok}

-- The route is among those that a service lists.
pub lists : ℕ → List RouteItem → Bool
lists id [] = false
lists id (item ∷ items) = (item.id == id) || lists id items

or-false : (a : Bool) → a || false ≡ a
or-false a = ground arith

or-swap : (a b c : Bool) → b || (a || c) ≡ (a || b) || c
or-swap a b c = ground arith

abbrev pub or_error {ℓ} : {A : Type ℓ} → Error → Option A → Result A
or_error e none = err e
or_error e (some a) = ok a

abbrev pub finds {ℓ} : {A : Type ℓ} → Result A → Bool
finds (ok a) = true
finds (err e) = false

module _ {E : Type 0} (parse : String → Option E) where
  -- The endpoint of the last service with the instance id whose endpoint can be parsed.
  pub last_endpoint : String → List ServiceInstance → Option E → Option E
  last_endpoint ins_id [] before = before
  last_endpoint ins_id (service ∷ services) before =
      last_endpoint ins_id services (elim (parse service.endpoint) [
        | none ↦ before
        | some ep ↦ if service.ins_id == ins_id then some ep else before
      ])

  add_services-endpoints :
      (ins_id : String) (services : List ServiceInstance) (d : Dispatcher E)
      → lookup ins_id (add_services parse services d).endpoints
        ≡ last_endpoint ins_id services (lookup ins_id d.endpoints)
  unfolding add_services last_endpoint
  add_services-endpoints ins_id [] d = refl
  add_services-endpoints ins_id (service ∷ services) d =
      elim (Option-cases (parse service.endpoint)) [
        | inl e ↦ rw (e, add_services, last_endpoint) (add_services-endpoints ins_id services d)
        | inr (ep, e) ↦
            rw (e, add_services, last_endpoint)
              (add_services-endpoints ins_id services _
                ∙ ap (last_endpoint ins_id services)
                    (lookup-insert service.ins_id ins_id ep d.endpoints))
      ]

  pub routed : ℕ → List ServiceInstance → Bool
  routed id [] = false
  routed id (service ∷ services) = elim (parse service.endpoint) [
    | none ↦ routed id services
    | some ep ↦ lists id service.routes || routed id services
  ]

module _ {E : Type 0} where
  knows : ℕ → Dict ℕ (DispatchRoute E) → Bool
  knows id routes = elim (lookup id routes) [ none ↦ false | some r ↦ true ]

  knows-insert :
      (id key : ℕ) (r : DispatchRoute E) (routes : Dict ℕ (DispatchRoute E))
      → knows id (insert key r routes) ≡ (key == id) || knows id routes
  unfolding knows
  knows-insert id key r routes = ground (arith, lookup-insert key id r routes)

  add_routes-knows :
      (id : ℕ) (service : ServiceInstance) (ep : E) (items : List RouteItem)
      (routes : Dict ℕ (DispatchRoute E))
      → knows id (add_routes service ep items routes) ≡ lists id items || knows id routes
  unfolding add_routes lists
  add_routes-knows id service ep [] routes = refl
  add_routes-knows id service ep (item ∷ items) routes =
      add_routes-knows id service ep items _
      ∙ ap (λ b. lists id items || b) (knows-insert id item.id _ routes)
      ∙ or-swap (item.id == id) (lists id items) (knows id routes)

module _ {E : Type 0} (parse : String → Option E) where
  add_services-knows :
      (id : ℕ) (services : List ServiceInstance) (d : Dispatcher E)
      → knows id (add_services parse services d).routes
        ≡ routed parse id services || knows id d.routes
  unfolding add_services routed
  add_services-knows id [] d = refl
  add_services-knows id (service ∷ services) d = elim (Option-cases (parse service.endpoint)) [
    | inl e ↦ rw (e, add_services, routed) (add_services-knows id services d)
    | inr (ep, e) ↦
        rw (e, add_services, routed)
          (add_services-knows id services _
            ∙ ap (λ b. routed parse id services || b)
                (add_routes-knows id service ep service.routes d.routes)
            ∙ or-swap (lists id service.routes) (routed parse id services) (knows id d.routes))
  ]

  found :
      (o : Option E)
      → elim o as (λ _. Result E) [ none ↦ err not_found_endpoint | some ep ↦ ok ep ]
        ≡ or_error not_found_endpoint o
  found none = refl
  found (some ep) = refl

  finds-knows : (id : ℕ) (d : Dispatcher E) → finds (find_route id d) ≡ knows id d.routes
  unfolding find_route knows
  finds-knows id d = elim (Option-cases (lookup id d.routes)) [
    | inl e ↦ rw (e, find_route, knows, finds) refl
    | inr (r, e) ↦ rw (e, find_route, knows, finds) refl
  ]

  -- After `ReplaceServices` an instance is found exactly when a service with its id has an endpoint
  -- that can be parsed, and then with the endpoint of the last such service, and a route is found
  -- exactly when a service with such an endpoint lists it, whatever the state before.
  pub replace_services-find :
      (services : List ServiceInstance) (before : Dispatcher E) (ins_id : String) (id : ℕ)
      → (find_endpoint ins_id (replace_services parse services before)
          ≡ elim (last_endpoint parse ins_id services none) [
            | none ↦ err not_found_endpoint
            | some ep ↦ ok ep
          ])
        × (finds (find_route id (replace_services parse services before))
            ≡ routed parse id services)
  unfolding find_endpoint replace_services knows lookup
  replace_services-find services before ins_id id =
      let d = add_services parse services empty in
      (
        found (lookup ins_id d.endpoints)
            ∙ ap (or_error not_found_endpoint) (add_services-endpoints parse ins_id services empty),
        finds-knows id d
            ∙ add_services-knows id services empty
            ∙ or-false (routed parse id services),
      )
