-- ===== src/Backend/Averages.antt =====
-- The moving average of backend/backend.go stays in the range of a time.Duration.
use poly_balance.Base.{ℤ, pos, negsuc, ◌≤ℤ◌, List, [], ◌∷◌, arith, Bool-cases, inl, inr, eqb_ℤ}
use poly_balance.Backend.Float.{Float64, latency_cap}
use poly_balance.Url.{Url}
use poly_balance.Backend.{
  Backend, fresh, Op, set_alive_op, inc_op, dec_op, success_op, half_open_op, latency_op,
  failure_op, apply, run, record_latency,
}

abbrev pub InRange : ℤ → Type 0
InRange z = (pos 0 ≤ℤ z) × (z ≤ℤ pos latency_cap)

-- Every recorded sample lies between 0 and 2^62 nanoseconds.
abbrev pub SamplesInRange : List Op → Type 0
SamplesInRange [] = Unit
SamplesInRange (latency_op sample ∷ os) = InRange sample × SamplesInRange os
SamplesInRange (_ ∷ os) = SamplesInRange os

of_int-InRange : (fl : Float64) (z : ℤ) → InRange z → fl.Within (fl.of_int z)
of_int-InRange fl (pos n) h = fl.of_int-Within n (omega arith)
of_int-InRange fl (negsuc n) h = absurd (omega arith)

mixed-InRange :
    (fl : Float64) (a s : ℤ)
    → InRange a
    → InRange s
    → InRange (fl.to_int (fl.add (fl.mul fl.keep (fl.of_int a)) (fl.mul fl.alpha (fl.of_int s))))
mixed-InRange fl a s ha hs =
    fl.to_int-Within _ (fl.mix-Within _ _ (of_int-InRange fl a ha) (of_int-InRange fl s hs))

record_latency-InRange :
    (fl : Float64) (sample : ℤ) (b : Backend)
    → InRange sample
    → InRange b.avg_latency
    → InRange (record_latency fl sample b).avg_latency
unfolding record_latency
record_latency-InRange fl sample b s h = elim (Bool-cases (eqb_ℤ b.avg_latency (pos 0))) [
  | inl e ↦ rw e s
  | inr e ↦ rw e (mixed-InRange fl b.avg_latency sample h s)
]

average-step :
    (fl : Float64) (o : Op) (os : List Op) (b : Backend)
    → SamplesInRange (o ∷ os)
    → InRange b.avg_latency
    → InRange (apply fl o b).avg_latency × SamplesInRange os
unfolding apply
average-step fl (latency_op sample) os b s h = (record_latency-InRange fl sample b s.0 h, s.1)
average-step fl (set_alive_op alive) os b s h = (h, s)
average-step fl inc_op os b s h = (h, s)
average-step fl dec_op os b s h = (ground arith, s)
average-step fl success_op os b s h = (ground arith, s)
average-step fl half_open_op os b s h = (h, s)
average-step fl (failure_op now) os b s h = (ground arith, s)

average-run :
    (fl : Float64) (os : List Op) (b : Backend)
    → SamplesInRange os
    → InRange b.avg_latency
    → InRange (run fl os b).avg_latency
unfolding run
average-run fl [] b s h = h
average-run fl (o ∷ os) b s h =
    let (h', s') = average-step fl o os b s h in average-run fl os (apply fl o b) s' h'

-- If every sample of a new backend's history lies between 0 and 2^62 nanoseconds, then so does its
-- average: it is never negative, and the conversion back from float64 never overflows.
pub average_in_range :
    (fl : Float64) (os : List Op) (u : Url) (weight : ℤ)
    → SamplesInRange os
    → let z = (run fl os (fresh u weight)).avg_latency in (pos 0 ≤ℤ z) × (z ≤ℤ pos latency_cap)
unfolding fresh
average_in_range fl os u weight s = average-run fl os (fresh u weight) s (omega arith)
