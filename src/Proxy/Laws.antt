-- ===== src/Proxy/Laws.antt =====
-- What one proxied request does to the backend, on every branch of proxy/reverse_proxy.go.
use poly_balance.Base.{
  ℕ, ◌≡◌, refl, String, true, ◌&&◌, some, ℤ, pos, ◌-◌, sub_ℕ, inc_int64, ◌≤ℤ◌, leb_ℤ, List, [], ◌∷◌,
  arith, if◌then◌else◌, max_int64, Bool-cases, inl, inr, ◌∙◌, sym, ap,
}
use poly_balance.Backend.Float.{Float64}
use poly_balance.Backend.{
  Backend, circuit_closed, circuit_open, circuit_half_open, is_open, is_closed, check_circuit_state,
  get_circuit_state, can_attempt_half_open, Op, inc_op, dec_op, success_op, half_open_op,
  latency_op, failure_op, apply, run, inc_connections, dec_connections, record_failure,
  record_success,
}
use poly_balance.Backend.Trace.{IsValid, run-IsValid_of}
use poly_balance.Proxy.{
  Sink, Outcome, answered, unreachable, Exchange, serve, forward, finish, probe,
}

-- The methods that the outcome of a round trip calls.
abbrev pub outcome_op : Exchange → Outcome → Op
outcome_op x (answered status chunks) = success_op
outcome_op x unreachable = failure_op x.fail_at

abbrev pub rest_ops : Exchange → List Op
rest_ops x = inc_op ∷ outcome_op x x.outcome ∷ latency_op (sub_ℕ x.end_at x.start_at) ∷ dec_op ∷ []

-- The backend's methods that an admitted request calls.
abbrev pub pass_ops : Exchange → Backend → List Op
pass_ops x b =
    if is_open b.circuit && can_attempt_half_open b x.gate_at
    then half_open_op ∷ rest_ops x
    else rest_ops x

module _ {W : Type 0} (sink : Sink W) (fl : Float64) where
  forward-apply :
      (x : Exchange) (o : Outcome) (b : Backend) (w : W)
      → (forward sink x o (b, w)).0 ≡ apply fl (outcome_op x o) b
  unfolding forward apply
  forward-apply x (answered status chunks) b w = refl
  forward-apply x unreachable b w = refl

  finish-run :
      (x : Exchange) (p : Backend × W)
      → (finish fl x p).0 ≡ run fl (latency_op (sub_ℕ x.end_at x.start_at) ∷ dec_op ∷ []) p.0
  unfolding finish run apply
  finish-run x (b, w) = refl

  probe-run :
      (x : Exchange) (b : Backend)
      → run fl (rest_ops x) (probe x.gate_at b) ≡ run fl (pass_ops x b) b
  unfolding probe run apply get_circuit_state
  probe-run x b = elim (Bool-cases (is_open b.circuit && can_attempt_half_open b x.gate_at)) [
    | inl half ↦ rw half
    | inr whole ↦ rw whole
  ]

  rest-run :
      (x : Exchange) (b : Backend)
      → run fl
          (latency_op (sub_ℕ x.end_at x.start_at) ∷ dec_op ∷ [])
          (apply fl (outcome_op x x.outcome) (inc_connections b))
        ≡ run fl (rest_ops x) b
  unfolding run apply
  rest-run x b = refl

  pub serve-run :
      (x : Exchange) (b : Backend) (w : W)
      → (serve sink fl x b w).0
        ≡ (if check_circuit_state b x.gate_at then run fl (pass_ops x b) b else b)
  unfolding serve
  serve-run x b w = elim (Bool-cases (check_circuit_state b x.gate_at)) [
    | inl up ↦ rw up (
        finish-run x (forward sink x x.outcome (inc_connections (probe x.gate_at b), w))
        ∙ ap (run fl (latency_op (sub_ℕ x.end_at x.start_at) ∷ dec_op ∷ []))
            (forward-apply x x.outcome (inc_connections (probe x.gate_at b)) w)
        ∙ rest-run x (probe x.gate_at b)
        ∙ probe-run x b)
    | inr down ↦ rw down
  ]

  pub serve-IsValid :
      (x : Exchange) (b : Backend) (w : W) → IsValid b → IsValid (serve sink fl x b w).0
  serve-IsValid x b w v =
      rw (serve-run x b w) (elim (Bool-cases (check_circuit_state b x.gate_at)) [
        | inl up ↦ rw up (run-IsValid_of fl (pass_ops x b) b v)
        | inr down ↦ rw down v
      ])

  -- The end of a request leaves all but the average and the connection count alone.
  tail_fields :
      (z : ℤ) (b : Backend)
      → let c = run fl (latency_op z ∷ dec_op ∷ []) b in
        (c.circuit ≡ b.circuit)
        × (c.failure_count ≡ b.failure_count)
        × (c.last_failure ≡ b.last_failure)
        × (c.active_connections ≡ (dec_connections b).active_connections)
  unfolding run apply
  tail_fields z b = ground arith

  -- The backend after an admitted request.
  serve-passed :
      (x : Exchange) (b : Backend) (w : W)
      → check_circuit_state b x.gate_at ≡ true
      → (serve sink fl x b w).0
        ≡ run fl
            (latency_op (sub_ℕ x.end_at x.start_at) ∷ dec_op ∷ [])
            (apply fl (outcome_op x x.outcome) (inc_connections (probe x.gate_at b)))
  serve-passed x b w up =
      serve-run x b w ∙ rw up (sym (rest-run x (probe x.gate_at b) ∙ probe-run x b))

  -- A request that the gate lets in and that the backend answers, with any status, leaves the
  -- circuit closed with no failure counted, also if the circuit was open or half-open before.
  pub serve-answered :
      (x : Exchange) (b : Backend) (w : W) (status : ℕ) (chunks : List String)
      → check_circuit_state b x.gate_at ≡ true
      → x.outcome ≡ answered status chunks
      → let c = (serve sink fl x b w).0 in (c.circuit ≡ circuit_closed) × (c.failure_count ≡ pos 0)
  unfolding apply probe get_circuit_state check_circuit_state can_attempt_half_open
  serve-answered x b w status chunks up e =
      rw (serve-passed x b w up, e)
        (ground (
          arith,
          tail_fields (sub_ℕ x.end_at x.start_at)
              (record_success (inc_connections (probe x.gate_at b))),
        ))

  -- A request that the gate lets in and that does not reach the backend counts one failure; a
  -- circuit that was open is half-open after it, a half-open one stays so, and a closed one opens
  -- exactly when it had counted four failures.
  pub serve-unreachable :
      (x : Exchange) (b : Backend) (w : W)
      → IsValid b
      → check_circuit_state b x.gate_at ≡ true
      → x.outcome ≡ unreachable
      → let c = (serve sink fl x b w).0 in
        (c.last_failure ≡ some x.fail_at)
        × (c.failure_count ≡ inc_int64 b.failure_count)
        × (c.circuit ≡ (
            if is_closed b.circuit
            then (if leb_ℤ (pos 4) b.failure_count then circuit_open else circuit_closed)
            else circuit_half_open))
  unfolding apply probe get_circuit_state check_circuit_state can_attempt_half_open
  serve-unreachable x b w v up e =
      rw (serve-passed x b w up, e)
        (ground (
          arith,
          tail_fields (sub_ℕ x.end_at x.start_at)
              (record_failure x.fail_at (inc_connections (probe x.gate_at b))),
        ))

  connections_back :
      (x : Exchange) (o : Outcome) (b : Backend)
      → pos 0 ≤ℤ b.active_connections
      → b.active_connections ≤ℤ pos (max_int64 - 1)
      → (run fl
          (latency_op (sub_ℕ x.end_at x.start_at) ∷ dec_op ∷ [])
          (apply fl (outcome_op x o) (inc_connections (probe x.gate_at b)))).active_connections
        ≡ b.active_connections
  unfolding apply probe
  connections_back x (answered status chunks) b h k = ground (
    arith,
    tail_fields (sub_ℕ x.end_at x.start_at) (record_success (inc_connections (probe x.gate_at b))),
  )
  connections_back x unreachable b h k = ground (
    arith,
    tail_fields (sub_ℕ x.end_at x.start_at)
        (record_failure x.fail_at (inc_connections (probe x.gate_at b))),
  )

  pub pass-connections :
      (x : Exchange) (b : Backend)
      → pos 0 ≤ℤ b.active_connections
      → b.active_connections ≤ℤ pos (max_int64 - 1)
      → (run fl (pass_ops x b) b).active_connections ≡ b.active_connections
  pass-connections x b h k =
      ap (λ c. c.active_connections) (sym (rest-run x (probe x.gate_at b) ∙ probe-run x b))
      ∙ connections_back x x.outcome b h k
