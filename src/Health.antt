-- ===== src/Health.antt =====
-- backend/health.go: the periodic health checker.
-- The checker and the server hold the same backends: they are a list that every operation takes and
-- returns. The network is a parameter: what a GET of a URL's text gives, and when.
pub mod Rounds
pub mod Sick
mod Tests
use poly_balance.Base.{
  ℕ, ◌+◌, String, Bool, true, false, ℤ, pos, leb, leb_ℤ, if◌then◌else◌, List, [], ◌∷◌, str_eq, ◌||◌,
  not, ◌&&◌,
}
use poly_balance.Url.{url_text}
use poly_balance.Backend.{Backend, set_alive, record_failure, record_success}

pub record HealthChecker : Type 0 where
  pub interval : ℤ
  pub timeout : ℤ
  pub path : String

-- Non-positive durations and an empty path are replaced by the defaults.
unfoldable pub new_health_checker : ℤ → ℤ → String → HealthChecker
new_health_checker interval timeout path = record {
  interval = if leb_ℤ interval (pos 0) then pos 2_000_000_000 else interval;
  timeout = if leb_ℤ timeout (pos 0) then pos 1_000_000_000 else timeout;
  path = if str_eq path "" then "/healthz" else path;
}

-- What `client.Get` returns: an error, or a response with its status code.
pub data Reply : Type 0 where
  failed : Reply
  responded : ℕ → Reply

-- The answer to the GET that is the n-th of its round, and the clock when it arrives.
abbrev pub Network : Type 0
Network = ℕ → String → Reply × ℕ

-- The branches of `checkOne` after the request.
unfoldable pub judge : Reply × ℕ → Backend → Backend
judge (failed, now) b = record_failure now (set_alive false b)
judge (responded status, now) b =
    if leb 500 status
    then record_failure now (set_alive false b)
    else record_success (set_alive true b)

unfoldable pub check_one : HealthChecker → Network → ℕ → Backend → Backend
unfolding judge
check_one hc net n b = judge (net n (url_text (record b.url { path = hc.path }))) b

-- The loop of `checkAll`, at its n-th backend.
unfoldable pub check_from : HealthChecker → Network → ℕ → List Backend → List Backend
check_from hc net n [] = []
check_from hc net n (b ∷ bs) = check_one hc net n b ∷ check_from hc net (n + 1) bs

unfoldable pub check_all : HealthChecker → Network → List Backend → List Backend
unfolding check_from
check_all hc net bs = check_from hc net 0 bs

-- What the goroutine's `select` receives.
pub data Signal : Type 0 where
  tick : Network → Signal
  done : Signal

-- The loop of `Start`: a round at each tick, until the context is done.
unfoldable pub start : HealthChecker → List Signal → List Backend → List Backend
start hc [] bs = bs
start hc (done ∷ signals) bs = bs
start hc (tick net ∷ signals) bs = start hc signals (check_all hc net bs)
