-- ===== src/Server/Concurrent/Tests.antt =====
-- Runs of several requests, and the theorems at them.
use poly_balance.Base.{ℕ, List, ap, sym, false, zero, suc, ◌≡◌, refl, [], ◌∷◌, pos, arith}
use poly_balance.Samples.{idle, tripped}
use poly_balance.Backend.Float.{fractions}
use poly_balance.Backend.{
  Backend, apply, set_alive_op, set_circuit_half_open, circuit_closed, circuit_half_open,
  inc_connections, record_success, can_attempt_half_open, get_circuit_state, check_circuit_state,
}
use poly_balance.Strategy.{by_least_connections, next_backend}
use poly_balance.Strategy.Scan.{least_connections}
use poly_balance.Strategy.Choice.{undisturbed}
use poly_balance.Strategy.Hash.Insertion.{simple_library}
use poly_balance.Server.{is_retryable_method}
use poly_balance.Server.Concurrent.{
  Phase, Flight, choosing, broken, World, turn, arrive, check, Reach, here, later, first_phase,
  is_verdict, pick, admit, see_other, enter, answer, break_off, promote, see_open, cooled,
}
use poly_balance.Server.Concurrent.Connections.{connections-Counted, Counted}
use poly_balance.Server.Concurrent.Leaks.{broken_leaks}

abbrev with_first : Phase → Flight
with_first p = record { held = 0; phase = p }

-- One backend, and no request yet.
abbrev quiet_start : World
quiet_start = record {
  shared = record { backends = idle ∷ []; strategies = by_least_connections ∷ []; current = 0 };
  requests = [];
}

abbrev entered : Backend
entered = inc_connections idle

abbrev one_open : World
one_open = record {
  shared = record { backends = entered ∷ []; strategies = by_least_connections ∷ []; current = 0 };
  requests = with_first (Phase.flying 0 0 7) ∷ [];
}

up_to_entry : Reach fractions simple_library quiet_start one_open
unfolding first_phase is_retryable_method next_backend least_connections check_circuit_state
    get_circuit_state
up_to_entry =
    later
      (later
        (later
          (later (later here (arrive "POST")) (
            turn 0 refl (
              pick by_least_connections refl
                (undisturbed simple_library by_least_connections (idle ∷ []) 5 refl))))
          (turn 0 refl (admit idle 6 refl refl)))
        (turn 0 refl (see_other idle refl refl)))
      (turn 0 refl (enter idle 7 refl))

abbrev after_break : World
after_break = record {
  shared = record {
    backends = record_success entered ∷ [];
    strategies = by_least_connections ∷ [];
    current = 0;
  };
  requests = with_first (broken 0) ∷ [];
}

-- The body of the answer breaks off.
up_to_break : Reach fractions simple_library quiet_start after_break
up_to_break =
    later (later up_to_entry (turn 0 refl (answer entered 200 refl))) (turn 0 refl break_off)

none_connected : Counted quiet_start.shared.backends quiet_start.requests
none_connected zero b at = let same : idle ≡ b = cc in ap (λ x. x.active_connections) (sym same)
none_connected (suc i) b at = cc

-- A second request arrives while a health check finds the backend down, and the first ends.
abbrev two_requests : World
two_requests = record {
  shared = record {
    backends = apply fractions (set_alive_op false) entered ∷ [];
    strategies = by_least_connections ∷ [];
    current = 0;
  };
  requests = with_first (Phase.flying 0 0 7) ∷ with_first (choosing 2) ∷ [];
}

up_to_two : Reach fractions simple_library quiet_start two_requests
unfolding first_phase is_retryable_method is_verdict
up_to_two =
    later (later up_to_entry (arrive "GET")) (check 0 entered (set_alive_op false) refl refl)

connections-Counted_example :
    (apply fractions (set_alive_op false) entered).active_connections ≡ pos 1
connections-Counted_example =
    connections-Counted up_to_two (omega arith) none_connected 0
      (apply fractions (set_alive_op false) entered) refl

broken_leaks_example : (record_success entered).active_connections ≡ pos 1
broken_leaks_example =
    broken_leaks up_to_break (omega arith) none_connected (tt, tt) 0 (record_success entered) refl

-- A slow request undoes a recovery: two requests find the open circuit cooled, the first goes
-- through and its success closes the circuit, and then the second half opens it again.
abbrev half : Backend
half = inc_connections (set_circuit_half_open tripped)

abbrev recovered : Backend
recovered = record_success half

abbrev with_tripped : List Flight → World
with_tripped requests = record {
  shared = record { backends = tripped ∷ []; strategies = by_least_connections ∷ []; current = 0 };
  requests = requests;
}

abbrev late : ℕ
late = 40000000000

reaches_promotion :
    Reach fractions simple_library
      (with_tripped (with_first (choosing 0) ∷ with_first (choosing 0) ∷ []))
      (with_tripped (with_first (Phase.promoting 0 0) ∷ with_first (Phase.promoting 0 0) ∷ []))
unfolding next_backend least_connections check_circuit_state get_circuit_state can_attempt_half_open
reaches_promotion =
    later
      (later
        (later
          (later
            (later
              (later
                (later
                  (later here (
                    turn 0 refl (
                      pick by_least_connections refl (
                        undisturbed simple_library by_least_connections (tripped ∷ []) late refl))))
                  (turn 1 refl (
                    pick by_least_connections refl
                      (undisturbed simple_library by_least_connections (tripped ∷ []) late refl))))
                (turn 0 refl (admit tripped late refl refl)))
              (turn 1 refl (admit tripped late refl refl)))
            (turn 0 refl (see_open tripped refl refl)))
          (turn 1 refl (see_open tripped refl refl)))
        (turn 0 refl (cooled tripped late refl refl)))
      (turn 1 refl (cooled tripped late refl refl))

undone :
    Reach fractions simple_library
      (with_tripped (with_first (Phase.promoting 0 0) ∷ with_first (Phase.promoting 0 0) ∷ []))
      (record {
        shared = record {
          backends = set_circuit_half_open recovered ∷ [];
          strategies = by_least_connections ∷ [];
          current = 0;
        };
        requests = with_first (Phase.copying 0 0 late 200) ∷ with_first (Phase.entering 0 0) ∷ [];
      })
undone =
    later
      (later
        (later (later here (turn 0 refl (promote tripped refl)))
          (turn 0 refl (enter (set_circuit_half_open tripped) late refl)))
        (turn 0 refl (answer half 200 refl)))
      (turn 1 refl (promote recovered refl))

undone-circuits :
    (recovered.circuit ≡ circuit_closed)
    × ((set_circuit_half_open recovered).circuit ≡ circuit_half_open)
unfolding record_success inc_connections set_circuit_half_open
undone-circuits = (refl, refl)
