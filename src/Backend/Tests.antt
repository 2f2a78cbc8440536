-- ===== src/Backend/Tests.antt =====
-- Runs of a backend, and the theorems at them.
use poly_balance.Base.{ℕ, ◌≡◌, refl, true, Option, some, pos, List, [], ◌∷◌, map}
use poly_balance.Backend.Float.{fractions}
use poly_balance.Url.{Url}
use poly_balance.Backend.{
  Backend, circuit_closed, circuit_open, circuit_half_open, fresh, Op, inc_op, dec_op, latency_op,
  failure_op, apply, run, check_circuit_state, new_backend,
}
use poly_balance.Backend.Trace.{IsValid, run-IsValid}
use poly_balance.Backend.Circuit.{failures_trip, half_open_never_reopens}

abbrev here : Url
here = record { scheme = "http"; host = "localhost:8081"; path = "" }

abbrev first : Backend
first = record {
  url = here;
  weight = pos 1;
  alive = true;
  circuit = circuit_closed;
  last_failure = some 70;
  failure_count = pos 4;
  active_connections = pos 0;
  avg_latency = pos 0;
}

abbrev five_times : List ℕ
five_times = 10 ∷ 20 ∷ 30 ∷ 40 ∷ 50 ∷ []

abbrev busy : List Op
busy = inc_op ∷ latency_op (pos 100) ∷ inc_op ∷ latency_op (pos 200) ∷ dec_op ∷ failure_op 7 ∷ []

busy_average : (run fractions busy (fresh here (pos 1))).avg_latency ≡ pos 120
unfolding run apply fresh
busy_average = refl

five_failures :
    (run fractions (map failure_op five_times) (fresh here (pos 1))).circuit ≡ circuit_open
unfolding run apply fresh
five_failures = refl

parse_fails : new_backend (λ s. Option.none) "::" (pos 1) ≡ Option.none
unfolding new_backend
parse_fails = refl

run-IsValid_example : IsValid (run fractions busy (fresh here (pos 1)))
run-IsValid_example = run-IsValid fractions busy here (pos 1)

failures_trip_example :
    (run fractions (map failure_op five_times) (record first { failure_count = pos 0 })).circuit
    ≡ circuit_open
failures_trip_example =
    failures_trip fractions five_times (record first { failure_count = pos 0 }) refl refl

half_open_never_reopens_example :
    let b = record first { circuit = circuit_half_open } in
    ((run fractions (map failure_op five_times) b).circuit ≡ circuit_half_open)
    × (check_circuit_state (run fractions (map failure_op five_times) b) 60 ≡ true)
half_open_never_reopens_example =
    half_open_never_reopens fractions (map failure_op five_times)
      (record first { circuit = circuit_half_open }) 60 refl tt
