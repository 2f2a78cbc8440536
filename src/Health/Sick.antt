-- ===== src/Health/Sick.antt =====
-- backend/health.go: backends whose probes all fail.
use poly_balance.Base.{
  ℕ, ◌+◌, ◌<◌, ◌≡◌, sym, ap, ◌∙◌, true, false, leb, if◌then◌else◌, Bool-cases, inl, inr, ◌++◌, some,
  pos, List, [], ◌∷◌, arith, get_elem?, length,
}
use poly_balance.Url.{Url}
use poly_balance.Backend.{
  Backend, circuit_closed, circuit_open, circuit_half_open, run, check_circuit_state, set_alive,
  record_failure, max_failures,
}
use poly_balance.Backend.Float.{Float64}
use poly_balance.Backend.Circuit.{NoSuccess, NoProbe, half_open_never_reopens, open_stays}
use poly_balance.Health.{HealthChecker, Reply, failed, responded, Signal, tick, done, judge, start}
use poly_balance.Health.Rounds.{
  is_healthy, probe_ops, reply_to, history, judge-run, run-append, start-run,
}

-- Every signal is a tick, and every reply to the n-th probe is a failure.
abbrev pub AlwaysFails : HealthChecker → List Signal → ℕ → Url → Type 0
AlwaysFails hc [] n u = Unit
AlwaysFails hc (done ∷ signals) n u = ⊥
AlwaysFails hc (tick net ∷ signals) n u =
    (is_healthy (reply_to hc net n u).0 ≡ false) × AlwaysFails hc signals n u

AlwaysFails-NoSuccess :
    (hc : HealthChecker) (signals : List Signal) (i : ℕ) (u : Url)
    → AlwaysFails hc signals i u
    → NoSuccess (history hc signals i u)
AlwaysFails-NoSuccess hc [] i u h = tt
AlwaysFails-NoSuccess hc (done ∷ signals) i u h = absurd h
AlwaysFails-NoSuccess hc (tick net ∷ signals) i u h =
    rw (h.0) (AlwaysFails-NoSuccess hc signals i u h.1)

-- However often its probes fail, a backend whose circuit is half-open stays half-open and is
-- routed to at every moment: the checker alone never takes it out of service.
pub sick_half_open_routed :
    (fl : Float64) (hc : HealthChecker) (signals : List Signal) (i now : ℕ) (bs : List Backend)
    (b : Backend)
    → get_elem? bs i ≡ some b
    → b.circuit ≡ circuit_half_open
    → AlwaysFails hc signals i b.url
    → (c : Backend) × (get_elem? (start hc signals bs) i ≡ some c)
      × (c.circuit ≡ circuit_half_open)
      × (check_circuit_state c now ≡ true)
sick_half_open_routed fl hc signals i now bs b at h s =
    let (half, routed) =
      half_open_never_reopens fl (history hc signals i b.url) b now h
        (AlwaysFails-NoSuccess hc signals i b.url s) in
    (run fl (history hc signals i b.url) b, start-run fl hc signals i bs b at, half, routed)

failed_step :
    (r : Reply × ℕ) (b : Backend) (k : ℕ)
    → is_healthy r.0 ≡ false
    → b.circuit ≡ circuit_closed
    → b.failure_count ≡ pos k
    → k < 5
    → ((judge r b).circuit ≡ (if leb 4 k then circuit_open else circuit_closed))
      × ((judge r b).failure_count ≡ pos (k + 1))
unfolding judge set_alive record_failure
failed_step (failed, t) b k s c n h = ground arith
failed_step (responded status, t) b k s c n h = ground arith

AlwaysFails-NoProbe :
    (hc : HealthChecker) (signals : List Signal) (i : ℕ) (u : Url)
    → AlwaysFails hc signals i u
    → NoProbe (history hc signals i u)
AlwaysFails-NoProbe hc [] i u h = tt
AlwaysFails-NoProbe hc (done ∷ signals) i u h = absurd h
AlwaysFails-NoProbe hc (tick net ∷ signals) i u h =
    rw (h.0) (AlwaysFails-NoProbe hc signals i u h.1)

failed_run :
    (fl : Float64) (hc : HealthChecker) (signals : List Signal) (i : ℕ) (u : Url) (b : Backend)
    (k : ℕ)
    → AlwaysFails hc signals i u
    → b.circuit ≡ circuit_closed
    → b.failure_count ≡ pos k
    → k < 5
    → (run fl (history hc signals i u) b).circuit
      ≡ (if leb 5 (k + length signals) then circuit_open else circuit_closed)
failed_run fl hc [] i u b k s c n h = unfold run in ground arith
failed_run fl hc (done ∷ signals) i u b k s c n h = absurd s
failed_run fl hc (tick net ∷ signals) i u b k s c n h =
    let r = reply_to hc net i u in
    let (moved, counted) = failed_step r b k s.0 c n h in
    let split : run fl (probe_ops r ++ history hc signals i u) b
        ≡ run fl (history hc signals i u) (judge r b) =
      run-append fl (probe_ops r) (history hc signals i u) b
      ∙ ap (run fl (history hc signals i u)) (sym (judge-run fl r b)) in
    rw split (elim (Bool-cases (leb 4 k)) [
      | inl last ↦
          open_stays fl (history hc signals i u) (judge r b) (ground arith)
            (AlwaysFails-NoProbe hc signals i u s.1)
          ∙ ground arith
      | inr more ↦
          failed_run fl hc signals i u (judge r b) (k + 1) s.1 (ground arith) counted (ground arith)
          ∙ ground arith
    ])

-- A backend in service with no failure counted, whose probes all fail, has an open circuit exactly
-- from the fifth round on, and a closed one before.
pub sick_rounds_trip :
    (fl : Float64) (hc : HealthChecker) (signals : List Signal) (i : ℕ) (bs : List Backend)
    (b : Backend)
    → get_elem? bs i ≡ some b
    → b.circuit ≡ circuit_closed
    → b.failure_count ≡ pos 0
    → AlwaysFails hc signals i b.url
    → (c : Backend) × (get_elem? (start hc signals bs) i ≡ some c)
      × (c.circuit ≡ (if leb max_failures (length signals) then circuit_open else circuit_closed))
sick_rounds_trip fl hc signals i bs b at h n s = (
  run fl (history hc signals i b.url) b,
  start-run fl hc signals i bs b at,
  failed_run fl hc signals i b.url b 0 s h n (omega arith)
      ∙ (let e : 0 + length signals ≡ length signals = omega arith in rw e),
)
