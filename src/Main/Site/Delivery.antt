-- ===== src/Main/Site/Delivery.antt =====
-- The handler of cmd/main.go's listener, from the limiters to a backend that answers.
use poly_balance.Base.{ℕ, ◌≤◌, ◌≡◌, true, false, String, some, List, get_elem?}
use poly_balance.Backend.{Backend, check_circuit_state}
use poly_balance.Http.{Writer}
use poly_balance.Middleware.RequestLimiter
use poly_balance.Proxy.{answered}
use poly_balance.Server.{choose, is_retryable_status}
use poly_balance.Server.Delivery.{Delivered}
use poly_balance.Main.{System}
use poly_balance.Main.Site.{Outside, Visit}

module _ (out : Outside) (v : Visit) (s : System) (i : ℕ) (b : Backend) (status : ℕ)
    (chunks : List String)
    (picked : (choose out.float out.strategies v.attempts 0 s.server).1 ≡ some i)
    (at : get_elem? s.server.backends i ≡ some b)
    (up : check_circuit_state b (v.attempts 0).exchange.gate_at ≡ true)
    (e : (v.attempts 0).exchange.outcome ≡ answered status chunks) (given : 1 ≤ status)
    (final : is_retryable_status status ≡ false) where
  abbrev Gets : System × Writer → Type 0
  Gets (t, w) = Delivered status chunks i (t.server, w)
