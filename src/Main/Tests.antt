-- ===== src/Main/Tests.antt =====
-- A small configuration for the tests of cmd/main.go.
use poly_balance.Base.{true, String, Option, none, some, pos, str_eq, if◌then◌else◌}
use poly_balance.Url.{Url}
use poly_balance.Health.{HealthChecker, Network, failed, new_health_checker}
use poly_balance.Main.Process.{Process}
use poly_balance.Main.Created.{Created}

abbrev parse_http : String → Option Url
parse_http s = if str_eq s ":" then none else some (record { scheme = "http"; host = s; path = "" })

abbrev checker : HealthChecker
checker = new_health_checker (pos 0) (pos 0) ""

-- No backend answers.
abbrev cut_off : Network
cut_off n url = (failed, n)

abbrev up : Process
up = record { serving = true; checking = true; running = true }
