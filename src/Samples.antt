-- ===== src/Samples.antt =====
-- Backends for the tests.
use poly_balance.Base.{true, false, none, some, pos}
use poly_balance.Url.{Url}
use poly_balance.Backend.{Backend, circuit_closed, circuit_open}

abbrev pub url_one : Url
url_one = record { scheme = "http"; host = "localhost:8081"; path = "" }

-- In service and idle.
abbrev pub idle : Backend
idle = record {
  url = url_one;
  weight = pos 1;
  alive = true;
  circuit = circuit_closed;
  last_failure = none;
  failure_count = pos 0;
  active_connections = pos 0;
  avg_latency = pos 0;
}

-- Out of service: its health check failed.
abbrev pub dead : Backend
dead = record idle { alive = false }

-- With three requests under way and a measured latency.
abbrev pub loaded : Backend
loaded = record idle { active_connections = pos 3; avg_latency = pos 20 }

-- Measured at a lower latency, with one request under way.
abbrev pub quick : Backend
quick = record idle { active_connections = pos 1; avg_latency = pos 10 }

-- Tripped at time 100.
abbrev pub tripped : Backend
tripped = record idle { circuit = circuit_open; last_failure = some 100; failure_count = pos 5 }
