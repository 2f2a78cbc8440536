-- ===== src/Dashboard.antt =====
-- ui/dashboard.go: the handlers that read and change the balancer's parts.
-- An answer is the value that is encoded for the client, or the call of `http.Error`; encoding/json,
-- the headers of the answer and the page, a constant, are left out.
pub mod Outgoing
pub mod Lockout
mod Tests
use poly_balance.Base.{
  ℕ, zero, suc, ◌+◌, ◌*◌, ◌-◌, ◌/◌, ◌%◌, String, Bool, true, false, Option, none, some, ℤ, pos,
  negsuc, leb, max_int64, ◌⊎◌, inl, inr, List, [], ◌∷◌, length, str_eq, if◌then◌else◌,
}
use poly_balance.Text.{atoi}
use poly_balance.Url.{url_text}
use poly_balance.Backend.{Backend, is_alive, get_active_connections}
use poly_balance.Middleware.RateLimiter
use poly_balance.Middleware.RequestLimiter
use poly_balance.Middleware.Tls
use poly_balance.Middleware.Tls.{TlsConfig}
use poly_balance.Server.Controller.{StrategyController, set, available_strategies}

-- The parts that the dashboard shares with the server, and its start.
pub record Dashboard : Type 0 where
  pub backends : List Backend
  pub rate_limiter : RateLimiter.RateLimiter
  pub request_limiter : RequestLimiter.RequestLimiter
  pub tls_config : TlsConfig
  pub controller : StrategyController
  pub start_time : ℕ

-- One entry of the list of backends.
pub record BackendInfo : Type 0 where
  pub id : ℕ
  pub url : String
  pub healthy : Bool
  pub weight : ℤ
  pub connections : ℤ

-- What both limiters and the TLS settings report, and the name of the strategy.
pub record Settings : Type 0 where
  pub rate_limit : Bool × ℤ × ℤ × ℕ
  pub request_limit : Bool × ℤ × ℤ
  pub tls : Bool × String × String × Bool
  pub strategy : String

-- What a GET of the balancer's own root gives: an error, or a status and the server's name if the
-- body tells it.
pub data Fetched : Type 0 where
  lost : String → Fetched
  got : ℕ → Option String → Fetched

-- One result of `handleSendRequests`.
pub record Sent : Type 0 where
  pub request_num : ℕ
  pub elapsed_ms : ℕ
  pub outcome : Fetched

pub data Answer : Type 0 where
  failed : String → ℕ → Answer
  saved : Answer
  configuration : Settings → Answer
  status : ℕ → List String → ℕ → ℕ → Settings → Answer
  backend_list : List BackendInfo → Answer
  strategy_missing : Answer
  strategy_changed strategy_invalid : String → Answer
  strategy_report : String → List String → Answer
  health_counts rate_counts : ℕ → ℕ → Answer
  one_alive none_alive running : Answer
  url_missing : Answer
  toggle_failed toggled : String → Answer
  requests_sent : ℕ → List Sent → Answer

-- What `ParseForm` gives: its error, or the values by name, empty for a missing one.
abbrev pub Form : Type 0
Form = String ⊎ (String → String)

-- A uint64 read as an int64.
abbrev pub to_int64 : ℕ → ℤ
to_int64 r = if leb r max_int64 then pos r else negsuc (18446744073709551615 - r)

-- `time.Duration(secs) * time.Second`, which wraps at 2^64.
unfoldable pub times_second : ℤ → ℤ
times_second (pos n) = to_int64 (n * 1_000_000_000 % 18446744073709551616)
times_second (negsuc n) =
    to_int64
      ((18446744073709551616 - suc n * 1_000_000_000 % 18446744073709551616) % 18446744073709551616)

unfoldable pub report : Dashboard → Settings
report d = record {
  rate_limit = RateLimiter.get_stats d.rate_limiter;
  request_limit = RequestLimiter.get_stats d.request_limiter;
  tls = Tls.get_stats d.tls_config;
  strategy = d.controller.name;
}

-- How many backends `IsAlive` counts.
unfoldable pub alive_count : List Backend → ℕ
alive_count [] = 0
alive_count (b ∷ bs) = let rest = alive_count bs in if is_alive b then rest + 1 else rest

unfoldable pub handle_status : ℕ → Dashboard → Answer
handle_status now d =
    status ((now - d.start_time) / 1_000_000_000) available_strategies (length d.backends)
      (alive_count d.backends) (report d)

unfoldable pub infos : ℕ → List Backend → List BackendInfo
infos i [] = []
infos i (b ∷ bs) =
    record {
      id = i;
      url = url_text b.url;
      healthy = is_alive b;
      weight = b.weight;
      connections = get_active_connections b;
    }
    ∷ infos (i + 1) bs

unfoldable pub handle_backends : Dashboard → Answer
unfolding infos
handle_backends d = backend_list (infos 0 d.backends)

-- A number that the form gives, or the default where it gives none or no number.
unfoldable pub number_or : ℤ → String → ℤ
number_or def value = if str_eq value "" then def else elim (atoi value) [ none ↦ def | some n ↦ n ]

abbrev pub window_of : String → ℤ
window_of value =
    if str_eq value ""
    then pos 60_000_000_000
    else elim (atoi value) [ none ↦ pos 60_000_000_000 | some secs ↦ times_second secs ]

-- The two statements of `handleConfig` for each limiter.
unfoldable pub set_rate_limit :
    (String → String) → RateLimiter.RateLimiter → RateLimiter.RateLimiter
set_rate_limit form rl =
    if str_eq (form "rate_limit_max") "" then switched else elim (atoi (form "rate_limit_max")) [
      | none ↦ switched
      | some n ↦ RateLimiter.set_limits n (window_of (form "rate_limit_window")) switched
    ]
  where
    switched : RateLimiter.RateLimiter
    switched =
        if str_eq (form "rate_limit_enabled") ""
        then rl
        else RateLimiter.set_enabled (str_eq (form "rate_limit_enabled") "true") rl

unfoldable pub set_request_limit :
    (String → String) → RequestLimiter.RequestLimiter → RequestLimiter.RequestLimiter
set_request_limit form rl =
    if str_eq (form "max_body_size") "" then switched else elim (atoi (form "max_body_size")) [
      | none ↦ switched
      | some n ↦
          RequestLimiter.set_limits n (number_or (pos 8192) (form "max_header_size")) switched
    ]
  where
    switched : RequestLimiter.RequestLimiter
    switched =
        if str_eq (form "request_limit_enabled") ""
        then rl
        else RequestLimiter.set_enabled (str_eq (form "request_limit_enabled") "true") rl

unfoldable pub handle_config : String → Form → Dashboard → Dashboard × Answer
handle_config method form d =
    if str_eq method "POST"
    then elim form [
      | inl error ↦ (d, failed error 400)
      | inr values ↦ (
        record d {
          rate_limiter = set_rate_limit values d.rate_limiter;
          request_limiter = set_request_limit values d.request_limiter;
        },
        saved,
      )
    ]
    else (d, configuration (report d))

-- `Set` on the strategy that the form names.
unfoldable pub change_strategy : String → Dashboard → Dashboard × Answer
change_strategy name d =
    let (controller, known) = set name d.controller in
    if str_eq name "" then (d, strategy_missing) else (
      record d { controller = controller },
      if known then strategy_changed name else strategy_invalid name,
    )

unfoldable pub handle_strategy : String → Form → Dashboard → Dashboard × Answer
handle_strategy method form d =
    if str_eq method "POST"
    then elim form [
      | inl error ↦ (d, failed error 400)
      | inr values ↦ change_strategy (values "strategy") d
    ]
    else (d, strategy_report d.controller.name available_strategies)

-- The loop of the rate-limit test: the calls that are left, with the clock of each and the counts.
unfoldable pub try_allow :
    ℕ → (ℕ → ℕ) → String → RateLimiter.RateLimiter → ℕ → ℕ → RateLimiter.RateLimiter × ℕ × ℕ
try_allow zero clock ip rl allowed blocked = (rl, allowed, blocked)
try_allow (suc left) clock ip rl allowed blocked =
    let (rl', ok) = RateLimiter.allow ip (clock left) rl in
    let admitted = try_allow left clock ip rl' (allowed + 1) blocked in
    let refused = try_allow left clock ip rl' allowed (blocked + 1) in
    if ok then admitted else refused

-- `handleTest`; `test_ip` is made from the clock.
unfoldable pub handle_test : String → (ℕ → ℕ) → String → Dashboard → Dashboard × Answer
handle_test kind clock test_ip d =
    if str_eq kind "health"
    then (d, health_counts (alive_count d.backends) (length d.backends - alive_count d.backends))
    else if str_eq kind "ratelimit"
    then (let (rl, allowed, blocked) = try_allow 20 clock test_ip d.rate_limiter 0 0 in
        (record d { rate_limiter = rl }, rate_counts allowed blocked))
    else if str_eq kind "connection"
    then (d, if leb 1 (alive_count d.backends) then one_alive else none_alive)
    else (d, running)
