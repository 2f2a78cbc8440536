-- ===== src/Proxy/Sinks.antt =====
-- What the proxy does to the writer that it is handed, for any writer.
use poly_balance.Base.{ℕ, String, Bool-cases, inl, inr, List, [], ◌∷◌}
use poly_balance.Backend.Float.{Float64}
use poly_balance.Backend.{Backend, check_circuit_state, inc_connections}
use poly_balance.Proxy.{
  Sink, Outcome, answered, unreachable, Exchange, serve, forward, finish, probe, copy_body,
  sink_error,
}

module _ {W : Type 0} (sink : Sink W) (P : W → Type 0)
    (kept : (chunk : String) (w : W) → P w → P (sink.put chunk w)) where
  copy_body-keeps : (chunks : List String) (w : W) → P w → P (copy_body sink chunks w)
  unfolding copy_body
  copy_body-keeps [] w p = p
  copy_body-keeps (chunk ∷ chunks) w p = copy_body-keeps chunks (sink.put chunk w) (kept chunk w p)

  forward-begins :
      (x : Exchange) (o : Outcome) (b : Backend) (w : W)
      → ((code : ℕ) → P (sink.put_header code w))
      → P (forward sink x o (b, w)).1
  unfolding forward
  forward-begins x (answered status chunks) b w begun =
      copy_body-keeps chunks (sink.put_header status w) (begun status)
  forward-begins x unreachable b w begun = kept _ _ (begun 502)

  -- What every status line establishes and every write keeps holds when the proxy is done.
  pub serve-begins :
      (fl : Float64) (x : Exchange) (b : Backend) (w : W)
      → ((code : ℕ) → P (sink.put_header code w))
      → P (serve sink fl x b w).1
  unfolding serve finish sink_error
  serve-begins fl x b w begun = elim (Bool-cases (check_circuit_state b x.gate_at)) [
    | inl up ↦ rw up (forward-begins x x.outcome (inc_connections (probe x.gate_at b)) w begun)
    | inr down ↦ rw down (kept _ _ (begun 503))
  ]
