-- ===== src/Server/Tests.antt =====
-- Requests to the balancer, and the theorems at them.
use poly_balance.Base.{pos, ℕ, some, [], ◌∷◌, ◌≡◌, refl, arith, All, if◌then◌else◌, ◌==◌}
use poly_balance.Samples.{idle, dead, loaded}
use poly_balance.Backend.Float.{fractions}
use poly_balance.Backend.{check_circuit_state}
use poly_balance.Backend.Trace.{IsValid}
use poly_balance.Strategy.{by_round_robin, by_least_connections, next_backend}
use poly_balance.Strategy.Avail.{available}
use poly_balance.Strategy.RoundRobin
use poly_balance.Strategy.RoundRobin.{new_round_robin}
use poly_balance.Strategy.Hash.Insertion.{simple_library}
use poly_balance.Strategy.Weights.{next_backend-reweigh}
use poly_balance.Strategy.Range.{InRange, next_backend-InRange}
use poly_balance.Http.{unsent}
use poly_balance.Proxy.{answered, unreachable}
use poly_balance.Server.{Server, Attempt, choose, is_retryable_method, serve_http}
use poly_balance.Server.Writers.{first_failure_decides}

abbrev pub two_up : Server
two_up = record {
  backends = idle ∷ loaded ∷ [];
  controller = record { current = by_round_robin new_round_robin; name = "round_robin" };
}

-- The first backend that is tried is down, all others answer.
abbrev pub one_down : ℕ → Attempt
one_down n = record {
  pick_at = 500;
  exchange = record {
    gate_at = 510;
    start_at = 520;
    fail_at = 530;
    end_at = 540;
    outcome = if n == 0 then unreachable else answered 200 ("hello" ∷ []);
  };
}

first_failure_decides_example :
    (serve_http fractions simple_library one_down "GET" two_up unsent).1.sent ≡ some 502
unfolding choose next_backend RoundRobin.next_backend new_round_robin available check_circuit_state
    is_retryable_method
first_failure_decides_example =
    first_failure_decides fractions simple_library one_down "GET" two_up 1 loaded refl refl refl
      refl refl

two_up-IsValid : All IsValid two_up.backends
two_up-IsValid = (ground arith, (ground arith, tt))

next_backend-InRange_example :
    InRange 2 (next_backend simple_library by_least_connections (dead ∷ idle ∷ []) 9).1
next_backend-InRange_example =
    next_backend-InRange simple_library by_least_connections (dead ∷ idle ∷ []) 9

next_backend-reweigh_example :
    next_backend simple_library
      (by_round_robin new_round_robin)
      (record idle { weight = pos 9 } ∷ record loaded { weight = pos 9 } ∷ [])
      9
    ≡ next_backend simple_library (by_round_robin new_round_robin) (idle ∷ loaded ∷ []) 9
next_backend-reweigh_example =
    next_backend-reweigh simple_library (by_round_robin new_round_robin) (λ b. pos 9)
      (idle ∷ loaded ∷ []) 9
