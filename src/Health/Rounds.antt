-- ===== src/Health/Rounds.antt =====
-- What the rounds of backend/health.go do to each backend.
use poly_balance.Base.{
  ℕ, suc, ◌+◌, ◌≡◌, refl, sym, ap, subst, ◌∙◌, Bool, true, false, ltb, if◌then◌else◌, ◌++◌, some,
  pos, ◌≤ℤ◌, List, [], ◌∷◌, arith, map, All, get_elem?, length,
}
use poly_balance.Url.{Url, url_text}
use poly_balance.Backend.{
  Backend, circuit_closed, Op, set_alive_op, success_op, failure_op, apply, run,
  check_circuit_state, set_alive, record_failure, record_success,
}
use poly_balance.Backend.Float.{Float64}
use poly_balance.Health.{
  HealthChecker, Network, Reply, failed, responded, Signal, tick, done, judge, check_one,
  check_from, check_all, start,
}

-- The verdict on a reply: a response with a status below 500.
abbrev pub is_healthy : Reply → Bool
is_healthy failed = false
is_healthy (responded status) = ltb status 500

-- The methods that one probe calls.
abbrev pub probe_ops : Reply × ℕ → List Op
probe_ops (reply, now) =
    if is_healthy reply
    then set_alive_op true ∷ success_op ∷ []
    else set_alive_op false ∷ failure_op now ∷ []

-- The reply to the n-th probe of a round, at a backend with the URL `u`.
abbrev pub reply_to : HealthChecker → Network → ℕ → Url → Reply × ℕ
reply_to hc net n u = net n (url_text (record u { path = hc.path }))

-- The methods that the checker calls on the n-th backend until it is stopped.
abbrev pub history : HealthChecker → List Signal → ℕ → Url → List Op
history hc [] n u = []
history hc (done ∷ signals) n u = []
history hc (tick net ∷ signals) n u = probe_ops (reply_to hc net n u) ++ history hc signals n u

pub judge-run : (fl : Float64) (r : Reply × ℕ) (b : Backend) → judge r b ≡ run fl (probe_ops r) b
unfolding judge run apply
judge-run fl (failed, now) b = refl
judge-run fl (responded status, now) b = ground arith

pub run-append :
    (fl : Float64) (os ps : List Op) (b : Backend) → run fl (os ++ ps) b ≡ run fl ps (run fl os b)
unfolding run
run-append fl [] ps b = refl
run-append fl (o ∷ os) ps b = run-append fl os ps (apply fl o b)

judge-url : (r : Reply × ℕ) (b : Backend) → (judge r b).url ≡ b.url
unfolding judge set_alive record_failure record_success
judge-url (failed, now) b = ground arith
judge-url (responded status, now) b = ground arith

get_elem?-check_from :
    (hc : HealthChecker) (net : Network) (n i : ℕ) (bs : List Backend) {b : Backend}
    → get_elem? bs i ≡ some b
    → get_elem? (check_from hc net n bs) i ≡ some (judge (reply_to hc net (n + i) b.url) b)
unfolding check_from check_one
get_elem?-check_from hc net n i [] h = ground arith
get_elem?-check_from hc net n ℕ.zero (c ∷ bs) {b} h =
    let e : n + 0 ≡ n = omega arith in let same : c ≡ b = cc in rw (e, ← same)
get_elem?-check_from hc net n (suc i) (c ∷ bs) h =
    let e : n + 1 + i ≡ n + suc i = omega arith in
    rw (← e) (get_elem?-check_from hc net (n + 1) i bs h)

pub length-check_from :
    (hc : HealthChecker) (net : Network) (n : ℕ) (bs : List Backend)
    → length (check_from hc net n bs) ≡ length bs
unfolding check_from
length-check_from hc net n [] = refl
length-check_from hc net n (b ∷ bs) = ap suc (length-check_from hc net (n + 1) bs)

pub length-start :
    (hc : HealthChecker) (signals : List Signal) (bs : List Backend)
    → length (start hc signals bs) ≡ length bs
unfolding start check_all
length-start hc [] bs = refl
length-start hc (done ∷ signals) bs = refl
length-start hc (tick net ∷ signals) bs =
    length-start hc signals (check_from hc net 0 bs) ∙ length-check_from hc net 0 bs

-- The checker's whole run, until the context is done, does to the backend at each position exactly
-- the methods of its history, in order.
pub start-run :
    (fl : Float64) (hc : HealthChecker) (signals : List Signal) (i : ℕ) (bs : List Backend)
    (b : Backend)
    → get_elem? bs i ≡ some b
    → get_elem? (start hc signals bs) i ≡ some (run fl (history hc signals i b.url) b)
unfolding start check_all
start-run fl hc [] i bs b h = unfold run in h
start-run fl hc (done ∷ signals) i bs b h = unfold run in h
start-run fl hc (tick net ∷ signals) i bs b h =
    let r = reply_to hc net i b.url in
    let step : get_elem? (check_from hc net 0 bs) i ≡ some (judge r b) =
      let e : 0 + i ≡ i = omega arith in
      subst (λ k. get_elem? (check_from hc net 0 bs) i ≡ some (judge (reply_to hc net k b.url) b)) e
        (get_elem?-check_from hc net 0 i bs h) in
    start-run fl hc signals i (check_from hc net 0 bs) (judge r b) step
    ∙ ap some (
        ap (λ u. run fl (history hc signals i u) (judge r b)) (judge-url r b)
        ∙ ap (run fl (history hc signals i b.url)) (judge-run fl r b)
        ∙ sym (run-append fl (probe_ops r) (history hc signals i b.url) b))

-- Closed circuits that have room for one more failure.
abbrev pub HasRoom : Backend → Type 0
HasRoom b = (b.circuit ≡ circuit_closed) × (pos 0 ≤ℤ b.failure_count) × (b.failure_count ≤ℤ pos 3)

-- The verdicts of a round, from its n-th probe.
abbrev pub verdicts : HealthChecker → Network → ℕ → List Backend → List Bool
verdicts hc net n [] = []
verdicts hc net n (b ∷ bs) = is_healthy (reply_to hc net n b.url).0 ∷ verdicts hc net (n + 1) bs

judge-verdict :
    (r : Reply × ℕ) (b : Backend) (now : ℕ)
    → HasRoom b
    → check_circuit_state (judge r b) now ≡ is_healthy r.0
unfolding judge set_alive record_failure record_success check_circuit_state
judge-verdict (failed, t) b now h = ground arith
judge-verdict (responded status, t) b now h = ground arith

check_from-verdicts :
    (hc : HealthChecker) (net : Network) (n now : ℕ) (bs : List Backend)
    → All HasRoom bs
    → map (λ b. check_circuit_state b now) (check_from hc net n bs) ≡ verdicts hc net n bs
unfolding check_from check_one
check_from-verdicts hc net n now [] h = refl
check_from-verdicts hc net n now (b ∷ bs) h =
    rw (judge-verdict (reply_to hc net n b.url) b now h.0) (
      ap (◌∷◌ (is_healthy (reply_to hc net n b.url).0))
        (check_from-verdicts hc net (n + 1) now bs h.1))

-- After a round, a backend whose circuit was closed with at most three failures is routed to, at
-- any moment, exactly when its own probe was answered with a status below 500.
pub check_all-verdicts :
    (hc : HealthChecker) (net : Network) (now : ℕ) (bs : List Backend)
    → All HasRoom bs
    → map (λ b. check_circuit_state b now) (check_all hc net bs) ≡ verdicts hc net 0 bs
unfolding check_all
check_all-verdicts hc net now bs h = check_from-verdicts hc net 0 now bs h
