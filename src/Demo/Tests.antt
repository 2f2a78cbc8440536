-- ===== src/Demo/Tests.antt =====
-- Two demonstration servers, and the theorems at them.
use poly_balance.Base.{◌≡◌, ◌≢◌, refl, some, pos, List, [], ◌∷◌, modify, All, arith}
use poly_balance.Samples.{idle, loaded}
use poly_balance.Backend.{Backend}
use poly_balance.Strategy.Scan.{least_connections, lowest_latency}
use poly_balance.Strategy.RoundRobin
use poly_balance.Strategy.RoundRobin.{new_round_robin}
use poly_balance.Http.{header_get}
use poly_balance.Health.{HealthChecker, check_all}
use poly_balance.Health.Rounds.{HasRoom}
use poly_balance.Text.{itoa, itoa_fuel, decimal}
use poly_balance.Demo.{Demo, Library, new_demo, store_toggled, greet, request_id_of, count_request}
use poly_balance.Demo.Fleet.{KeepsPaths, fleet, get_of}
use poly_balance.Demo.Toggle.{toggled, toggled_out}

abbrev one : Demo
one = new_demo (pos 8081) ""

abbrev two : Demo
two = new_demo (pos 8082) "blue"

abbrev plain : Library
plain = record {
  clean = λ path. path;
  page = λ target. target;
  rfc3339 = λ now. "now";
  encode = λ g. g.message;
}

plain-KeepsPaths : KeepsPaths plain
plain-KeepsPaths = (refl, refl)

abbrev checker : HealthChecker
checker = record { interval = pos 2_000_000_000; timeout = pos 1_000_000_000; path = "/healthz" }

room : All HasRoom (idle ∷ loaded ∷ [])
room = ((refl, ground arith, ground arith), ((refl, ground arith, ground arith), tt))

abbrev after_toggle : List Backend
after_toggle =
    check_all checker
      (fleet plain checker 500 (modify (one ∷ two ∷ []) 0 (λ _. toggled plain 500 one)))
      (idle ∷ loaded ∷ [])

toggled_out_example :
    (least_connections after_toggle 900 ≢ some 0)
    × (lowest_latency after_toggle 900 ≢ some 0)
    × ((RoundRobin.next_backend new_round_robin after_toggle 900).1 ≢ some 0)
unfolding new_round_robin new_demo
toggled_out_example =
    toggled_out plain plain-KeepsPaths one checker 500 900 0 (one ∷ two ∷ []) (idle ∷ loaded ∷ [])
      new_round_robin refl refl room (ground arith) refl refl

-- Two toggles that load before either stores count as one.
both_loaded : store_toggled 1 (store_toggled 1 two) ≡ store_toggled 1 two
unfolding store_toggled
both_loaded = refl

first_greeting :
    (greet (λ n. "now") 17 (get_of "/") (count_request one)).request_id ≡ "backend-8081-17-1"
unfolding greet request_id_of count_request new_demo decimal itoa itoa_fuel header_get
first_greeting = refl
