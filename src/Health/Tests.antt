-- ===== src/Health/Tests.antt =====
-- Rounds of the health checker, and the theorems at them.
use poly_balance.Base.{
  ◌≡◌, refl, true, false, some, none, pos, List, [], ◌∷◌, arith, map, str_eq, if◌then◌else◌,
  get_elem?,
}
use poly_balance.Backend.Float.{fractions}
use poly_balance.Url.{Url, url_text}
use poly_balance.Backend.{Backend, circuit_closed, run, check_circuit_state}
use poly_balance.Health.{
  HealthChecker, new_health_checker, Network, failed, responded, Signal, tick, done, check_all,
  start,
}
use poly_balance.Health.Rounds.{history, start-run, check_all-verdicts}

abbrev checker : HealthChecker
checker = record { interval = pos 2_000_000_000; timeout = pos 1_000_000_000; path = "/healthz" }

abbrev one_url : Url
one_url = record { scheme = "http"; host = "localhost:8081"; path = "" }

abbrev two_url : Url
two_url = record { scheme = "http"; host = "localhost:8082"; path = "/app" }

abbrev one : Backend
one = record {
  url = one_url;
  weight = pos 1;
  alive = true;
  circuit = circuit_closed;
  last_failure = none;
  failure_count = pos 0;
  active_connections = pos 0;
  avg_latency = pos 0;
}

abbrev two : Backend
two = record one { url = two_url }

-- The second server answers 503.
abbrev half_up : Network
half_up n text =
    if str_eq text "http://localhost:8082/healthz" then (responded 503, 5) else (responded 200, 5)

abbrev all_down : Network
all_down n text = (failed, 9)

abbrev six_rounds : List Signal
six_rounds =
    tick all_down
    ∷ tick all_down
    ∷ tick all_down
    ∷ tick all_down
    ∷ tick all_down
    ∷ tick all_down
    ∷ []

defaults : new_health_checker (pos 0) (pos 0) "" ≡ checker
unfolding new_health_checker
defaults = refl

texts : url_text two_url ≡ "http://localhost:8082/app"
unfolding url_text
texts = refl

start-run_example :
    get_elem? (start checker (tick all_down ∷ done ∷ tick half_up ∷ []) (one ∷ two ∷ [])) 1
    ≡ some
        (run fractions (history checker (tick all_down ∷ done ∷ tick half_up ∷ []) 1 two_url) two)
start-run_example =
    start-run fractions checker (tick all_down ∷ done ∷ tick half_up ∷ []) 1 (one ∷ two ∷ []) two
      refl

check_all-verdicts_example :
    map (λ b. check_circuit_state b 6) (check_all checker half_up (one ∷ two ∷ []))
    ≡ true ∷ false ∷ []
unfolding url_text
check_all-verdicts_example = check_all-verdicts checker half_up 6 (one ∷ two ∷ []) (ground arith)
