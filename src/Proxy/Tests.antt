-- ===== src/Proxy/Tests.antt =====
-- Requests through the proxy, and the theorems at them.
use poly_balance.Base.{ℕ, String, ◌≡◌, refl, Option, some, pos, [], ◌∷◌, arith}
use poly_balance.Samples.{tripped}
use poly_balance.Backend.Float.{fractions}
use poly_balance.Backend.{
  circuit_closed, check_circuit_state, dec_connections, record_latency, record_success,
  inc_connections, get_circuit_state, can_attempt_half_open, set_circuit_half_open,
}
use poly_balance.Http.{Writer, unsent, write, write_header}
use poly_balance.Proxy.{Sink, Exchange, answered, unreachable, serve, forward, finish, probe}
use poly_balance.Backend.Trace.{IsValid}

abbrev client_sink : Sink Writer
client_sink = record { put_header = write_header; put = write }

abbrev reached : Exchange
reached = record {
  gate_at = 20_000_000_000;
  start_at = 20_000_000_010;
  fail_at = 0;
  end_at = 20_000_000_050;
  outcome = answered 200 ("hello" ∷ []);
}

abbrev lost : Exchange
lost = record reached { fail_at = 20_000_000_040; outcome = unreachable }

tripped_heals :
    let (b, w) = serve client_sink fractions reached tripped unsent in
    (b.circuit ≡ circuit_closed) × (b.avg_latency ≡ pos 40) × (w.sent ≡ some 200)
unfolding serve forward finish probe check_circuit_state dec_connections record_latency
    record_success inc_connections get_circuit_state can_attempt_half_open set_circuit_half_open
    write
tripped_heals = (refl, refl, refl)

tripped-IsValid : IsValid tripped
tripped-IsValid = ground arith

abbrev name_it : ℕ → ℕ → String
name_it now n = "lb-1-1"

abbrev host_of : String → Option String
host_of addr = some "10.0.0.1"
