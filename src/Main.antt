-- ===== src/Main.antt =====
-- cmd/main.go: what is set up from the configuration.
-- `parse` is `url.Parse`; `none` stands for the end of the program by `log.Fatal`.
pub mod Created
pub mod Site
pub mod Process
mod Tests
use mathlib.Core.Option
use poly_balance.Base.{
  ℕ, ◌+◌, String, Bool, true, false, Option, none, some, ℤ, pos, List, [], ◌∷◌, length, get_elem?,
  ◌==◌, str_eq, if◌then◌else◌,
}
use poly_balance.Url.{Url}
use poly_balance.Backend.{Backend, new_backend}
use poly_balance.Health.{HealthChecker, new_health_checker}
use poly_balance.Config.{Config}
use poly_balance.Strategy.{
  Strategy, by_round_robin, by_least_connections, by_latency, by_consistent_hash,
}
use poly_balance.Strategy.RoundRobin.{new_round_robin}
use poly_balance.Strategy.Hash.{new_consistent_hash}
use poly_balance.Server.{Server, new_server}
use poly_balance.Server.Controller.{StrategyController}
use poly_balance.Middleware.RateLimiter.{RateLimiter, new_rate_limiter}
use poly_balance.Middleware.RequestLimiter.{RequestLimiter, new_request_limiter}
use poly_balance.Middleware.Tls.{TlsConfig, new_tls_config}

-- A position beyond the list of weights has weight 1.
unfoldable pub weight_at : List ℤ → ℕ → ℤ
weight_at weights i = elim (get_elem? weights i) [ none ↦ pos 1 | some w ↦ w ]

-- `proxy.NewReverseProxy`, which ends the program on a text that is no URL.
unfoldable pub new_reverse_proxy : (String → Option Url) → String → Option Url
new_reverse_proxy parse raw_url = parse raw_url

-- The loop over the URLs, from position `i`.
unfoldable pub create_backends :
    (String → Option Url) → List ℤ → ℕ → List String → Option (List Backend)
create_backends parse weights i [] = some []
create_backends parse weights i (raw_url ∷ urls) =
    let rest = create_backends parse weights (i + 1) urls in
    elim (new_reverse_proxy parse raw_url) [
      | none ↦ none
      | some target ↦ elim (new_backend parse raw_url (weight_at weights i)) [
        | none ↦ rest
        | some b ↦ Option.map (λ bs. b ∷ bs) rest
      ]
    ]

-- The strategy for a name, with the name that it goes by: an unknown one means round robin.
unfoldable pub select_strategy : String → Strategy × String
select_strategy name =
    if str_eq name "round_robin"
    then (by_round_robin new_round_robin, name)
    else if str_eq name "least_connections"
    then (by_least_connections, name)
    else if str_eq name "latency"
    then (by_latency, name)
    else if str_eq name "consistent_hash"
    then (by_consistent_hash (new_consistent_hash (pos 50)), name)
    else (by_round_robin new_round_robin, "round_robin")

pub record System : Type 0 where
  pub server : Server
  pub rate_limiter : RateLimiter
  pub request_limiter : RequestLimiter
  pub tls_config : TlsConfig
  pub health_checker : HealthChecker

-- The parts built from the configuration around a server; the health checker works on the server's
-- backends.
unfoldable pub assemble : Config → Server → System
assemble cfg server = record {
  server = server;
  rate_limiter = new_rate_limiter cfg.rate_limit_max cfg.rate_limit_window cfg.rate_limit_enabled;
  request_limiter =
      new_request_limiter cfg.max_body_size cfg.max_header_size cfg.request_limit_enabled;
  tls_config = new_tls_config cfg.tls_enabled cfg.tls_cert_file cfg.tls_key_file cfg.tls_auto_gen;
  health_checker = new_health_checker cfg.health_interval cfg.health_timeout "/healthz";
}

unfoldable pub controller_for : String → StrategyController
controller_for name =
    let (strategy, known) = select_strategy name in record { current = strategy; name = known }

-- `main` up to the start of the servers; `flag` is the strategy given on the command line.
unfoldable pub set_up : (String → Option Url) → String → Config → Option System
set_up parse flag cfg = elim (create_backends parse cfg.weights 0 cfg.backend_urls) [
  | none ↦ none
  | some bs ↦
      if length bs == 0
      then none
      else (elim (new_server bs (controller_for (if str_eq flag "" then cfg.strategy else flag))) [
        | none ↦ none
        | some server ↦ some (assemble cfg server)
      ])
]
