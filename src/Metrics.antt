-- ===== src/Metrics.antt =====
-- metrics/metrics.go: the metrics that are registered when the program starts, and the server that
-- exposes them. The Prometheus library is an argument: `register` is MustRegister, and `none` is its
-- panic.
pub mod Registered
mod Tests
use poly_balance.Base.{
  ◌≡◌, String, Bool, true, false, ◌||◌, Option, none, some, List, [], ◌∷◌, str_eq, if◌then◌else◌,
}
use poly_balance.Config.{Config}

pub data Kind : Type 0 where
  counter counter_vec gauge gauge_vec histogram : Kind

-- The options of a metric; `labels` is empty where it has none.
pub record Metric : Type 0 where
  pub kind : Kind
  pub name : String
  pub help : String
  pub labels : List String

abbrev pub total_requests : Metric
total_requests = record {
  kind = counter;
  name = "polybalance_requests_total";
  help = "Total number of HTTP requests processed by the load balancer";
  labels = [];
}

abbrev pub backend_failures : Metric
backend_failures = record {
  kind = counter_vec;
  name = "polybalance_backend_failures_total";
  help = "Number of failed requests per backend";
  labels = "backend" ∷ [];
}

abbrev pub active_connections : Metric
active_connections = record {
  kind = gauge;
  name = "polybalance_active_connections";
  help = "Current number of active proxied requests";
  labels = [];
}

-- Its buckets are the library's default.
abbrev pub request_duration : Metric
request_duration = record {
  kind = histogram;
  name = "polybalance_request_duration_seconds";
  help = "Histogram of request durations through the load balancer";
  labels = [];
}

abbrev pub backend_health : Metric
backend_health = record {
  kind = gauge_vec;
  name = "polybalance_backend_health";
  help = "Backend health status (1 = healthy, 0 = unhealthy)";
  labels = "backend" ∷ [];
}

-- The library's registry: whether a name is taken, and that a metric is refused exactly when its name
-- is, for the names of this program, which are valid.
pub record Registry : Type 1 where
  pub R : Type 0
  pub has : String → R → Bool
  pub register : Metric → R → Option R
  pub register-new :
      (m : Metric) (r : R)
      → has m.name r ≡ false
      → (r' : R) × (register m r ≡ some r')
        × ((n : String) → has n r' ≡ (str_eq m.name n || has n r))
  pub register-taken : (m : Metric) (r : R) → has m.name r ≡ true → register m r ≡ none

abbrev pub all_metrics : List Metric
all_metrics =
    total_requests ∷ backend_failures ∷ active_connections ∷ request_duration ∷ backend_health ∷ []

module _ (reg : Registry) where
  -- One call of MustRegister after the other; nothing follows a panic.
  unfoldable pub register_all : List Metric → reg.R → Option reg.R
  register_all [] r = some r
  register_all (m ∷ ms) r = elim (reg.register m r) [ none ↦ none | some r' ↦ register_all ms r' ]

  -- `init`.
  unfoldable pub init : reg.R → Option reg.R
  unfolding register_all
  init r = register_all all_metrics r

-- What the server of the metrics does with a path: one handler, whose text is the library's.
abbrev pub metrics_routes {ℓ} : {A : Type ℓ} → A → List (String × A)
metrics_routes handler = ("/metrics", handler) ∷ []

-- The address at which main starts that server.
unfoldable pub metrics_address : Config → Option String
metrics_address cfg = if cfg.metrics_enabled then some cfg.metrics_addr else none
