-- ===== src/Backend/Circuit.antt =====
-- The circuit breaker of backend/backend.go as a state machine: how it trips, cools down and heals.
use poly_balance.Base.{
  ℕ, suc, ◌+◌, ◌≤◌, ◌<◌, ◌≡◌, inl, inr, true, ℤ, pos, ◌≤ℤ◌, List, [], ◌∷◌, arith, length, map, leb,
  if◌then◌else◌, Bool-cases,
}
use poly_balance.Backend.Float.{Float64}
use poly_balance.Url.{Url}
use poly_balance.Backend.{
  Backend, CircuitState, circuit_closed, circuit_open, circuit_half_open, fresh, Op, set_alive_op,
  inc_op, dec_op, success_op, half_open_op, latency_op, failure_op, apply, run, max_failures,
  record_failure, check_circuit_state,
}
use poly_balance.Backend.Trace.{failures}

-- The diagram: which method may move the circuit, and where to.
pub data Edge : Op → CircuitState → CircuitState → Type 0 where
  stay : {o : Op} {s : CircuitState} → Edge o s s
  trip : {now : ℕ} → Edge (failure_op now) circuit_closed circuit_open
  probe : {s : CircuitState} → Edge half_open_op s circuit_half_open
  recover : Edge success_op circuit_half_open circuit_closed

-- Every method, at every backend, moves the circuit along an edge of the diagram: only a failure
-- opens it, only from closed, and only a success closes it, only from half-open.
pub apply-Edge : (fl : Float64) (o : Op) (b : Backend) → Edge o b.circuit (apply fl o b).circuit
unfolding apply
apply-Edge fl (set_alive_op alive) b = stay
apply-Edge fl inc_op b = stay
apply-Edge fl dec_op b = grind (arith, stay)
apply-Edge fl success_op b = grind (arith, stay, recover)
apply-Edge fl half_open_op b = probe
apply-Edge fl (latency_op sample) b = grind (arith, stay)
apply-Edge fl (failure_op now) b = grind (arith, stay, trip)

open-failures :
    (fl : Float64) (ts : List ℕ) (b : Backend)
    → b.circuit ≡ circuit_open
    → (run fl (map failure_op ts) b).circuit ≡ circuit_open
unfolding run apply
open-failures fl [] b o = o
open-failures fl (t ∷ ts) b o = open-failures fl ts (record_failure t b) (ground arith)

closed-failures :
    (fl : Float64) (ts : List ℕ) (b : Backend) (k : ℕ)
    → b.circuit ≡ circuit_closed
    → b.failure_count ≡ pos k
    → k < 5
    → (run fl (map failure_op ts) b).circuit
      ≡ (if leb max_failures (k + length ts) then circuit_open else circuit_closed)
unfolding run apply
closed-failures fl [] b k c n h = ground arith
closed-failures fl (t ∷ ts) b k c n h = elim (Bool-cases (leb 4 k)) [
  | inl last ↦ ground (arith, open-failures fl ts (record_failure t b))
  | inr more ↦ ground (arith, closed-failures fl ts (record_failure t b) (k + 1))
]

-- From a closed circuit with no failure counted, a row of failures opens the circuit exactly when
-- there are at least five of them; before that it stays closed.
pub failures_trip :
    (fl : Float64) (ts : List ℕ) (b : Backend)
    → b.circuit ≡ circuit_closed
    → b.failure_count ≡ pos 0
    → (run fl (map failure_op ts) b).circuit
      ≡ (if leb max_failures (length ts) then circuit_open else circuit_closed)
failures_trip fl ts b c n = ground (arith, closed-failures fl ts b 0)

-- No success among the steps, and no step to half-open.
abbrev pub NoSuccess : List Op → Type 0
NoSuccess [] = Unit
NoSuccess (success_op ∷ os) = ⊥
NoSuccess (_ ∷ os) = NoSuccess os

abbrev pub NoProbe : List Op → Type 0
NoProbe [] = Unit
NoProbe (half_open_op ∷ os) = ⊥
NoProbe (_ ∷ os) = NoProbe os

half_open-step :
    (fl : Float64) (o : Op) (os : List Op) (b : Backend)
    → b.circuit ≡ circuit_half_open
    → NoSuccess (o ∷ os)
    → ((apply fl o b).circuit ≡ circuit_half_open) × NoSuccess os
unfolding apply
half_open-step fl success_op os b h n = absurd n
half_open-step fl (set_alive_op alive) os b h n = (ground arith, n)
half_open-step fl inc_op os b h n = (ground arith, n)
half_open-step fl dec_op os b h n = (ground arith, n)
half_open-step fl half_open_op os b h n = (ground arith, n)
half_open-step fl (latency_op sample) os b h n = (ground arith, n)
half_open-step fl (failure_op now) os b h n = (ground arith, n)

half_open-run :
    (fl : Float64) (os : List Op) (b : Backend)
    → b.circuit ≡ circuit_half_open
    → NoSuccess os
    → (run fl os b).circuit ≡ circuit_half_open
unfolding run
half_open-run fl [] b h n = h
half_open-run fl (o ∷ os) b h n =
    let (h', n') = half_open-step fl o os b h n in half_open-run fl os (apply fl o b) h' n'

-- A half-open circuit never opens again: as long as no request and no probe succeeds, any number
-- of failures leaves it half-open, and at every moment it admits every request.
pub half_open_never_reopens :
    (fl : Float64) (os : List Op) (b : Backend) (now : ℕ)
    → b.circuit ≡ circuit_half_open
    → NoSuccess os
    → ((run fl os b).circuit ≡ circuit_half_open) × (check_circuit_state (run fl os b) now ≡ true)
unfolding check_circuit_state
half_open_never_reopens fl os b now h n =
    let stays = half_open-run fl os b h n in (stays, ground arith)

open-step :
    (fl : Float64) (o : Op) (os : List Op) (b : Backend)
    → b.circuit ≡ circuit_open
    → NoProbe (o ∷ os)
    → ((apply fl o b).circuit ≡ circuit_open) × NoProbe os
unfolding apply
open-step fl half_open_op os b h n = absurd n
open-step fl (set_alive_op alive) os b h n = (ground arith, n)
open-step fl inc_op os b h n = (ground arith, n)
open-step fl dec_op os b h n = (ground arith, n)
open-step fl success_op os b h n = (ground arith, n)
open-step fl (latency_op sample) os b h n = (ground arith, n)
open-step fl (failure_op now) os b h n = (ground arith, n)

-- An open circuit is left only through `SetCircuitHalfOpen`: successes of requests still under way
-- and of health checks, in any number, leave it open.
pub open_stays :
    (fl : Float64) (os : List Op) (b : Backend)
    → b.circuit ≡ circuit_open
    → NoProbe os
    → (run fl os b).circuit ≡ circuit_open
unfolding run
open_stays fl [] b h n = h
open_stays fl (o ∷ os) b h n =
    let (h', n') = open-step fl o os b h n in open_stays fl os (apply fl o b) h' n'

-- `n` failures so far pay for what the breaker shows.
record Spent (b : Backend) (n : ℕ) : Type 0 where
  closed_paid :
      b.circuit ≡ circuit_closed
      → (pos 0 ≤ℤ b.failure_count) × (b.failure_count ≤ℤ pos n) × (b.failure_count ≤ℤ pos 4)
  open_paid : b.circuit ≡ circuit_open → 5 ≤ n

apply-Spent :
    (fl : Float64) (o : Op) (os : List Op) (b : Backend) (n : ℕ)
    → Spent b n
    → (m : ℕ) × Spent (apply fl o b) m × (m + failures os ≡ n + failures (o ∷ os))
unfolding apply
apply-Spent fl (failure_op now) os b n s = (suc n, ground arith, omega arith)
apply-Spent fl (set_alive_op alive) os b n s = (n, ground arith, omega arith)
apply-Spent fl inc_op os b n s = (n, ground arith, omega arith)
apply-Spent fl dec_op os b n s = (n, ground arith, omega arith)
apply-Spent fl success_op os b n s = (n, ground arith, omega arith)
apply-Spent fl half_open_op os b n s = (n, ground arith, omega arith)
apply-Spent fl (latency_op sample) os b n s = (n, ground arith, omega arith)

run-Spent :
    (fl : Float64) (os : List Op) (b : Backend) (n : ℕ)
    → Spent b n
    → Spent (run fl os b) (n + failures os)
unfolding run
run-Spent fl [] b n s = let e : n + 0 ≡ n = omega arith in rw e s
run-Spent fl (o ∷ os) b n s =
    let (m, s', e) = apply-Spent fl o os b n s in rw (← e) (run-Spent fl os (apply fl o b) m s')

-- The circuit of a new backend is open only if its history holds at least five failures.
pub open_needs_failures :
    (fl : Float64) (os : List Op) (u : Url) (weight : ℤ)
    → (run fl os (fresh u weight)).circuit ≡ circuit_open
    → 5 ≤ failures os
unfolding fresh
open_needs_failures fl os u weight h =
    let s = run-Spent fl os (fresh u weight) 0 (ground arith) in omega (arith, s.open_paid h)
