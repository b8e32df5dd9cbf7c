-- ===== src/Dispatcher/Tests.antt =====
-- Runs of internal/dispatcher with two instances; an endpoint is its text, and "" cannot be parsed.
use due.Base.{
  List, Option, String, [], arith, false, if◌then◌else◌, length, none, refl, some, ℕ, ◌<◌, ◌==◌,
  ◌∷◌, ◌≡◌, string_eq,
}
use due.Dispatcher.{
  DispatchRoute, RouteItem, ServiceEndpoint, ServiceInstance, empty, find_endpoint, find_route, nth,
  replace_services, round_robin_dispatch,
}
use due.Dispatcher.Replace.{finds, last_endpoint, or_error, replace_services-find, routed}
use due.Dispatcher.Rounds.{calls, round_robin-fair}
use due.Errors.{not_found_endpoint, ok}

abbrev parse : String → Option String
parse text = if text == "" then none else some text

abbrev item : RouteItem
item = record { id = 3; internal = false; stateful = false; authorized = false }

abbrev services : List ServiceInstance
services =
    record {
      ins_id = "a";
      alias = "g";
      state = "work";
      endpoint = "x:1";
      weight = 1;
      routes = item ∷ [];
    }
    ∷ record {
      ins_id = "b";
      alias = "g";
      state = "work";
      endpoint = "";
      weight = 1;
      routes = item ∷ [];
    }
    ∷ []

replace_services-find_example :
    (find_endpoint "a" (replace_services parse services empty)
      ≡ or_error not_found_endpoint (last_endpoint parse "a" services none))
    × (finds (find_route 3 (replace_services parse services empty)) ≡ routed parse 3 services)
replace_services-find_example = replace_services-find parse services empty "a" 3

working : List (ServiceEndpoint String)
working =
    record { ins_id = "a"; state = "work"; endpoint = "x:1"; weight = 1 }
    ∷ record { ins_id = "b"; state = "work"; endpoint = "x:2"; weight = 1 }
    ∷ []

abbrev two : DispatchRoute String
two = record {
  abstract = record {
    endpoints1 = working;
    endpoints2 = [];
    endpoints3 = [];
    endpoints4 = [];
    endpoints5 = [];
  };
  route = item;
  group = "g";
  counter = 0;
}

round_robin-fair_example :
    (k : ℕ) × (se : ServiceEndpoint String) × (k < length working)
    × (nth 1 working ≡ some se)
    × ((round_robin_dispatch (calls k two)).0 ≡ ok (some se.endpoint))
unfolding working
round_robin-fair_example = round_robin-fair two working 1 refl (omega arith) (omega arith)
