-- ===== src/Middleware/RateLimiter.antt =====
-- middleware/ratelimit.go: a sliding window of request times for each client key.
-- Every method holds the limiter's mutex, so it is one step on the record; the clock is read under
-- the mutex and is an argument. The map is an association list without repeated keys.
pub mod Table
pub mod Log
pub mod Refine
pub mod Window
mod Tests
use poly_balance.Base.{
  ℕ, suc, ◌+◌, ◌/◌, String, Bool, true, false, not, Option, none, some, ℤ, pos, negsuc, ltb_ℤ,
  leb_ℤ, sub_ℕ, List, [], ◌∷◌, ◌++◌, ◌==◌, length, keep_if, str_eq, if◌then◌else◌, Cell,
}
use poly_balance.Text.{first_part, trim_space}
use poly_balance.Http.{Request, Writer, header_get, write_header, write}

pub record RateLimiter : Type 0 where
  pub requests : List (String × List ℕ)
  pub max_requests : ℤ
  pub window : ℤ
  pub enabled : Bool

unfoldable pub new_rate_limiter : ℤ → ℤ → Bool → RateLimiter
new_rate_limiter max_requests window enabled = record {
  requests = [];
  max_requests = max_requests;
  window = window;
  enabled = enabled;
}

-- `rl.requests[ip]`: nil for a missing key.
unfoldable pub times_of : String → List (String × List ℕ) → List ℕ
times_of ip [] = []
times_of ip ((k, times) ∷ m) = if str_eq k ip then times else times_of ip m

-- `rl.requests[ip] = times`.
unfoldable pub put : String → List ℕ → List (String × List ℕ) → List (String × List ℕ)
put ip times [] = (ip, times) ∷ []
put ip times ((k, old) ∷ m) = if str_eq k ip then (ip, times) ∷ m else (k, old) ∷ put ip times m

-- `now.Sub(t) < rl.window`.
unfoldable pub is_fresh : ℤ → ℕ → ℕ → Bool
is_fresh window now t = ltb_ℤ (sub_ℕ now t) window

-- The loop that both `Allow` and `cleanup` run over the times of a key.
abbrev pub valid_times : ℤ → ℕ → List ℕ → List ℕ
valid_times window now times = keep_if (is_fresh window now) times

unfoldable pub allow : String → ℕ → RateLimiter → RateLimiter × Bool
allow ip now rl =
    if not rl.enabled
    then (rl, true)
    else if leb_ℤ rl.max_requests (pos (length valid))
    then (record rl { requests = put ip valid rl.requests }, false)
    else (record rl { requests = put ip (valid ++ (now ∷ [])) rl.requests }, true)
  where
    valid : List ℕ
    valid = valid_times rl.window now (times_of ip rl.requests)

-- One round of the loop of `cleanup`: expired times go, and keys left with none.
unfoldable pub prune : ℤ → ℕ → List (String × List ℕ) → List (String × List ℕ)
prune window now [] = []
prune window now ((k, times) ∷ m) =
    if length (valid_times window now times) == 0
    then prune window now m
    else (k, valid_times window now times) ∷ prune window now m

unfoldable pub cleanup : ℕ → RateLimiter → RateLimiter
cleanup now rl = record rl { requests = prune rl.window now rl.requests }

unfoldable pub set_enabled : Bool → RateLimiter → RateLimiter
set_enabled enabled rl = record rl { enabled = enabled }

unfoldable pub set_limits : ℤ → ℤ → RateLimiter → RateLimiter
set_limits max_requests window rl = record rl { max_requests = max_requests; window = window }

-- `int(d.Seconds())`: whole seconds, towards zero, which float64 gets right below 2^23 seconds.
unfoldable pub whole_seconds : ℤ → ℤ
whole_seconds (pos n) = pos (n / 1_000_000_000)
whole_seconds (negsuc n) = sub_ℕ 0 (suc n / 1_000_000_000)

-- `GetStats`: enabled, the maximum, the window in seconds, and the number of keys.
unfoldable pub get_stats : RateLimiter → Bool × ℤ × ℤ × ℕ
get_stats rl = (rl.enabled, rl.max_requests, whole_seconds rl.window, length rl.requests)

-- The client's key in `Middleware`.
unfoldable pub client_key : Request → String
unfolding first_part trim_space
client_key r =
    if str_eq real_ip ""
    then (if str_eq forwarded "" then r.remote_addr else trim_space (first_part forwarded))
    else real_ip
  where
    forwarded : String
    forwarded = header_get "X-Forwarded-For" r.header

    real_ip : String
    real_ip = header_get "X-Real-IP" r.header

-- The handler that `Middleware` wraps around `next`. The limiter is a part of the state that `next`
-- works on: it is released before `next` runs, which may change it too.
unfoldable pub limited :
    {S : Type 0}
    → Cell S RateLimiter
    → (Request → S × Writer → S × Writer)
    → ℕ
    → Request
    → S × Writer
    → S × Writer
limited cell next now r (s, w) =
    let (rl, ok) = allow (client_key r) now (cell.get s) in
    let s' = cell.put rl s in
    if ok then next r (s', w) else (
      s',
      write "{\"error\": \"rate limit exceeded\", \"retry_after\": 60}" (write_header 429 w),
    )
