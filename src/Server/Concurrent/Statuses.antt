-- ===== src/Server/Concurrent/Statuses.antt =====
-- The status that server/http_server.go's recorder has after a pass of proxy/reverse_proxy.go.
use poly_balance.Base.{
  ◌≡◌, refl, sym, ◌∙◌, subst, Bool-cases, inl, inr, true, false, then_branch, else_branch,
}
use poly_balance.Backend.Float.{Float64}
use poly_balance.Backend.{Backend, check_circuit_state, inc_connections}
use poly_balance.Http.{Writer}
use poly_balance.Proxy.{
  Outcome, answered, unreachable, Exchange, serve, forward, finish, probe, sink_error,
}
use poly_balance.Server.{record_header, record_write, recorder_sink}
use poly_balance.Server.Concurrent.Schedule.{code_of}

-- The recorder's status after the round trip.
forward_status :
    (fl : Float64) (x : Exchange) (o : Outcome) (c : Backend) (w : Writer)
    → let r = (finish fl x (forward recorder_sink x o (c, record { writer = w; status = 0 }))).1 in
      r.status ≡ (elim o [ answered st chunks ↦ r.status | unreachable ↦ 502 ])
unfolding finish forward sink_error record_header record_write
forward_status fl x (answered st chunks) c w = refl
forward_status fl x unreachable c w = refl

passed_status :
    (fl : Float64) (x : Exchange) (b : Backend) (w : Writer)
    → check_circuit_state b x.gate_at ≡ true
    → let r = (serve recorder_sink fl x b (record { writer = w; status = 0 })).1 in
      r.status ≡ (elim x.outcome [ answered st chunks ↦ r.status | unreachable ↦ 502 ])
unfolding serve
passed_status fl x b w up =
    let c = inc_connections (probe x.gate_at b) in
    let e : serve recorder_sink fl x b (record { writer = w; status = 0 })
        ≡ finish fl x (forward recorder_sink x x.outcome (c, record { writer = w; status = 0 })) =
      then_branch (check_circuit_state b x.gate_at) _ _ up in
    subst
      (λ q. q.1.status ≡ (elim x.outcome [ answered st chunks ↦ q.1.status | unreachable ↦ 502 ]))
      (sym e) (forward_status fl x x.outcome c w)

refused_status :
    (fl : Float64) (x : Exchange) (b : Backend) (w : Writer)
    → check_circuit_state b x.gate_at ≡ false
    → (serve recorder_sink fl x b (record { writer = w; status = 0 })).1.status ≡ 503
unfolding serve sink_error record_header record_write
refused_status fl x b w down = rw (down, serve) refl

-- The status that a pass leaves in a fresh recorder is that of the attempt's end.
pub recorded :
    (fl : Float64) (x : Exchange) (b : Backend) (w : Writer)
    → let r = (serve recorder_sink fl x b (record { writer = w; status = 0 })).1 in
      r.status ≡ code_of x b r.status
recorded fl x b w = elim (Bool-cases (check_circuit_state b x.gate_at)) [
  | inl up ↦ passed_status fl x b w up ∙ sym (then_branch (check_circuit_state b x.gate_at) _ _ up)
  | inr down ↦
      refused_status fl x b w down ∙ sym (else_branch (check_circuit_state b x.gate_at) _ _ down)
]
