-- ===== src/Backend/Trace.antt =====
-- What holds of a backend after any interleaving of its methods.
use poly_balance.Base.{
  ℕ, suc, ◌+◌, ◌≤◌, ◌<◌, ◌≡◌, ◌≢◌, none, ℤ, pos, ◌≤ℤ◌, List, [], ◌∷◌, arith, max_int64,
}
use poly_balance.Backend.Float.{Float64}
use poly_balance.Url.{Url}
use poly_balance.Backend.{
  Backend, circuit_closed, circuit_open, fresh, Op, set_alive_op, inc_op, dec_op, success_op,
  half_open_op, latency_op, failure_op, apply, run,
}

-- Between two methods: a closed circuit has counted fewer than five failures, and an open one has
-- the time of a failure to measure its cooldown from.
pub record IsValid (b : Backend) : Type 0 where
  pub closed_below :
      b.circuit ≡ circuit_closed → (pos 0 ≤ℤ b.failure_count) × (b.failure_count ≤ℤ pos 4)
  pub open_stamped : b.circuit ≡ circuit_open → b.last_failure ≢ none

pub fresh-IsValid : (u : Url) (weight : ℤ) → IsValid (fresh u weight)
unfolding fresh
fresh-IsValid u weight = ground arith

pub apply-IsValid : (fl : Float64) (o : Op) (b : Backend) → IsValid b → IsValid (apply fl o b)
unfolding apply
apply-IsValid fl (set_alive_op alive) b v = ground arith
apply-IsValid fl inc_op b v = ground arith
apply-IsValid fl dec_op b v = ground arith
apply-IsValid fl success_op b v = ground arith
apply-IsValid fl half_open_op b v = ground arith
apply-IsValid fl (latency_op sample) b v = ground arith
apply-IsValid fl (failure_op now) b v = ground arith

pub run-IsValid_of : (fl : Float64) (os : List Op) (b : Backend) → IsValid b → IsValid (run fl os b)
unfolding run
run-IsValid_of fl [] b v = v
run-IsValid_of fl (o ∷ os) b v = run-IsValid_of fl os (apply fl o b) (apply-IsValid fl o b v)

-- Whatever the goroutines do to a new backend, in any order and with any clock readings: a closed
-- circuit has a failure count between 0 and 4, and an open circuit has a recorded failure time.
pub run-IsValid :
    (fl : Float64) (os : List Op) (u : Url) (weight : ℤ) → IsValid (run fl os (fresh u weight))
run-IsValid fl os u weight = run-IsValid_of fl os (fresh u weight) (fresh-IsValid u weight)

-- The methods that open a proxied request, and the failures, of a history.
abbrev pub incs : List Op → ℕ
incs [] = 0
incs (inc_op ∷ os) = suc (incs os)
incs (_ ∷ os) = incs os

abbrev pub failures : List Op → ℕ
failures [] = 0
failures (failure_op now ∷ os) = suc (failures os)
failures (_ ∷ os) = failures os

abbrev pub IsCount : ℤ → ℕ → Type 0
IsCount z n = (pos 0 ≤ℤ z) × (z ≤ℤ pos n)

apply-connections :
    (fl : Float64) (o : Op) (b : Backend) (n : ℕ) (os : List Op)
    → IsCount b.active_connections n
    → n + incs (o ∷ os) < max_int64
    → (m : ℕ) × IsCount (apply fl o b).active_connections m × (m + incs os ≤ n + incs (o ∷ os))
unfolding apply
apply-connections fl inc_op b n os c h = (suc n, ground arith, omega arith)
apply-connections fl (set_alive_op alive) b n os c h = (n, ground arith, omega arith)
apply-connections fl dec_op b n os c h = (n, ground arith, omega arith)
apply-connections fl success_op b n os c h = (n, ground arith, omega arith)
apply-connections fl half_open_op b n os c h = (n, ground arith, omega arith)
apply-connections fl (latency_op sample) b n os c h = (n, ground arith, omega arith)
apply-connections fl (failure_op now) b n os c h = (n, ground arith, omega arith)

run-connections_of :
    (fl : Float64) (os : List Op) (b : Backend) (n : ℕ)
    → IsCount b.active_connections n
    → n + incs os < max_int64
    → IsCount (run fl os b).active_connections (n + incs os)
unfolding run
run-connections_of fl [] b n c h = omega arith
run-connections_of fl (o ∷ os) b n c h =
    let (m, k, le) = apply-connections fl o b n os c h in
    let rest = run-connections_of fl os (apply fl o b) m k (omega arith) in omega arith

-- The connection count of a new backend is never negative and at most the number of requests that
-- were begun, whatever the order of the methods, as long as fewer than 2^63 - 1 were begun.
pub run-connections :
    (fl : Float64) (os : List Op) (u : Url) (weight : ℤ)
    → incs os < max_int64
    → let b = run fl os (fresh u weight) in
      (pos 0 ≤ℤ b.active_connections) × (b.active_connections ≤ℤ pos (incs os))
unfolding fresh
run-connections fl os u weight h =
    let c = run-connections_of fl os (fresh u weight) 0 (omega arith) (omega arith) in omega arith
