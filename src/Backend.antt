-- ===== src/Backend.antt =====
-- backend/backend.go: one upstream server with its circuit breaker.
-- Every method holds the backend's mutex, so a method is one atomic step on the record: a method
-- that writes returns the new record. `time.Now` is an argument, in nanoseconds of the monotonic
-- clock; a `time.Time` is optional, since its zero value is no reading of the clock.
pub mod Float
pub mod Trace
pub mod Circuit
pub mod Averages
mod Tests
use poly_balance.Base.{
  ℕ, ◌+◌, ◌-◌, String, Bool, true, false, Option, none, some, ℤ, pos, negsuc, sub_ℕ, ltb_ℤ, leb_ℤ,
  eqb_ℤ, max_int64, inc_int64, dec_int64, if◌then◌else◌, ◌&&◌, List, [], ◌∷◌,
}
use poly_balance.Url.{Url}
use Float.{Float64}

pub data CircuitState : Type 0 where
  circuit_closed circuit_open circuit_half_open : CircuitState

abbrev pub is_closed : CircuitState → Bool
is_closed circuit_closed = true
is_closed _ = false

abbrev pub is_open : CircuitState → Bool
is_open circuit_open = true
is_open _ = false

abbrev pub is_half_open : CircuitState → Bool
is_half_open circuit_half_open = true
is_half_open _ = false

-- The proxy that a backend owns is the library's and keeps no state of the balancer.
pub record Backend : Type 0 where
  pub url : Url
  pub weight : ℤ
  pub alive : Bool
  pub circuit : CircuitState
  pub last_failure : Option ℕ
  pub failure_count : ℤ
  pub active_connections : ℤ
  pub avg_latency : ℤ

-- `now.Sub(t)` of `time.Since(t)`; the distance to the zero time saturates.
abbrev pub since : ℕ → Option ℕ → ℤ
since now none = pos max_int64
since now (some t) = sub_ℕ now t

-- The record that `NewBackend` builds once the URL is parsed.
unfoldable pub fresh : Url → ℤ → Backend
fresh u weight = record {
  url = u;
  weight = weight;
  alive = true;
  circuit = circuit_closed;
  last_failure = none;
  failure_count = pos 0;
  active_connections = pos 0;
  avg_latency = pos 0;
}

-- `parse` is `url.Parse`, `none` its error.
unfoldable pub new_backend : (String → Option Url) → String → ℤ → Option Backend
unfolding fresh
new_backend parse raw_url weight = elim (parse raw_url) [
  | none ↦ none
  | some u ↦ some (fresh u weight)
]

unfoldable pub set_alive : Bool → Backend → Backend
set_alive alive b = record b { alive = alive }

unfoldable pub is_alive : Backend → Bool
is_alive b = if is_open b.circuit then false else b.alive

unfoldable pub inc_connections : Backend → Backend
unfolding inc_int64
inc_connections b = record b { active_connections = inc_int64 b.active_connections }

unfoldable pub dec_connections : Backend → Backend
unfolding dec_int64
dec_connections b =
    if ltb_ℤ (pos 0) b.active_connections
    then record b { active_connections = dec_int64 b.active_connections }
    else b

-- The first sample is taken as it is; `(1-alpha)*avg + alpha*sample` afterwards.
unfoldable pub record_latency : Float64 → ℤ → Backend → Backend
record_latency fl sample b =
    if eqb_ℤ b.avg_latency (pos 0) then record b { avg_latency = sample } else record b {
      avg_latency = to_int (add (mul keep (of_int b.avg_latency)) (mul alpha (of_int sample)));
    }
  where
    open fl use {to_int, add, mul, keep, of_int, alpha}

abbrev pub max_failures : ℕ
max_failures = 5

-- Ten seconds.
abbrev pub open_state_timeout : ℕ
open_state_timeout = 10_000_000_000

unfoldable pub record_failure : ℕ → Backend → Backend
unfolding inc_int64
record_failure now b =
    if leb_ℤ (pos max_failures) t.failure_count && is_closed t.circuit
    then record t { circuit = circuit_open }
    else t
  where
    t : Backend
    t = record b { failure_count = inc_int64 b.failure_count; last_failure = some now }

unfoldable pub record_success : Backend → Backend
record_success b = if is_half_open t.circuit then record t { circuit = circuit_closed } else t
  where
    t : Backend
    t = record b { failure_count = pos 0 }

-- The `switch` of `CheckCircuitState`.
unfoldable pub check_circuit : CircuitState → Backend → ℕ → Bool
check_circuit circuit_open b now = leb_ℤ (pos open_state_timeout) (since now b.last_failure)
check_circuit circuit_half_open b now = true
check_circuit circuit_closed b now = b.alive

unfoldable pub check_circuit_state : Backend → ℕ → Bool
unfolding check_circuit
check_circuit_state b now = check_circuit b.circuit b now

unfoldable pub can_attempt_half_open : Backend → ℕ → Bool
can_attempt_half_open b now = leb_ℤ (pos open_state_timeout) (since now b.last_failure)

unfoldable pub set_circuit_half_open : Backend → Backend
set_circuit_half_open b = record b { circuit = circuit_half_open }

unfoldable pub get_circuit_state : Backend → CircuitState
get_circuit_state b = b.circuit

unfoldable pub get_average_latency : Backend → ℤ
get_average_latency b = b.avg_latency

unfoldable pub get_active_connections : Backend → ℤ
get_active_connections b = b.active_connections

-- One writing method with its arguments; the failure carries the clock's reading.
pub data Op : Type 0 where
  set_alive_op : Bool → Op
  inc_op dec_op success_op half_open_op : Op
  latency_op : ℤ → Op
  failure_op : ℕ → Op

unfoldable pub apply : Float64 → Op → Backend → Backend
unfolding set_alive inc_connections dec_connections record_latency record_failure record_success
    set_circuit_half_open
apply fl (set_alive_op alive) b = set_alive alive b
apply fl inc_op b = inc_connections b
apply fl dec_op b = dec_connections b
apply fl success_op b = record_success b
apply fl half_open_op b = set_circuit_half_open b
apply fl (latency_op sample) b = record_latency fl sample b
apply fl (failure_op now) b = record_failure now b

-- Any interleaving of the goroutines that share the backend is a list of such steps.
unfoldable pub run : Float64 → List Op → Backend → Backend
run fl [] b = b
run fl (o ∷ os) b = run fl os (apply fl o b)
