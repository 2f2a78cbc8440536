-- ===== src/Config.antt =====
-- internal/config.go: the settings read from the environment.
-- The environment gives the empty text for a name that is not set; `parse_duration` is
-- `time.ParseDuration`, in nanoseconds.
pub mod Bounds
pub mod RoundTrip
mod Tests
use poly_balance.Base.{
  ℕ, String, Bool, true, false, Option, none, some, ℤ, pos, List, [], ◌∷◌, map, length, ◌==◌,
  str_eq, if◌then◌else◌,
}
use poly_balance.Text.{split_comma, trim_space, atoi, parse_bool}

pub record Config : Type 0 where
  pub listen_addr : String
  pub backend_urls : List String
  pub weights : List ℤ
  pub strategy : String
  pub health_interval : ℤ
  pub health_timeout : ℤ
  pub metrics_enabled : Bool
  pub metrics_addr : String
  pub rate_limit_enabled : Bool
  pub rate_limit_max : ℤ
  pub rate_limit_window : ℤ
  pub request_limit_enabled : Bool
  pub max_body_size : ℤ
  pub max_header_size : ℤ
  pub tls_enabled : Bool
  pub tls_cert_file : String
  pub tls_key_file : String
  pub tls_auto_gen : Bool

unfoldable pub parse_csv : String → List String
parse_csv s = if str_eq s "" then [] else map trim_space (split_comma s)

-- A part that is no number counts as 1.
unfoldable pub int_or_one : String → ℤ
int_or_one p = elim (atoi (trim_space p)) [ none ↦ pos 1 | some n ↦ n ]

unfoldable pub parse_int_csv : String → List ℤ
parse_int_csv s = if str_eq s "" then [] else map int_or_one (split_comma s)

-- Two seconds, one second and a minute.
abbrev pub second : ℕ
second = 1_000_000_000

abbrev pub two_seconds : ℕ
two_seconds = 2_000_000_000

abbrev pub minute : ℕ
minute = 60_000_000_000

-- Ten mebibytes.
abbrev pub default_body_size : ℕ
default_body_size = 10_485_760

module _ (getenv : String → String) where
  unfoldable pub get_env : String → String → String
  get_env key def = if str_eq (getenv key) "" then def else getenv key

  -- The part that the four parsing getters have in common: the default stands in for a missing
  -- value and for one that does not parse.
  unfoldable pub get_parsed : {A : Type 0} → (String → Option A) → String → A → A
  get_parsed parse key def =
      if str_eq (getenv key) "" then def else elim (parse (getenv key)) [ none ↦ def | some x ↦ x ]

  unfoldable pub get_bool : String → Bool → Bool
  get_bool key def = get_parsed parse_bool key def

  unfoldable pub get_int : String → ℤ → ℤ
  get_int key def = get_parsed atoi key def

  unfoldable pub get_int64 : String → ℤ → ℤ
  get_int64 key def = get_parsed atoi key def

  module _ (parse_duration : String → Option ℤ) where
    unfoldable pub get_duration : String → ℤ → ℤ
    get_duration key def = get_parsed parse_duration key def

    -- The record that `LoadConfig` fills.
    unfoldable pub read_config : Config
    read_config = record {
      listen_addr = get_env "LB_LISTEN_ADDR" ":8080";
      backend_urls = parse_csv (get_env "LB_BACKENDS" "");
      weights = parse_int_csv (get_env "LB_WEIGHTS" "");
      strategy = get_env "LB_STRATEGY" "round_robin";
      health_interval = get_duration "LB_HEALTH_INTERVAL" (pos two_seconds);
      health_timeout = get_duration "LB_HEALTH_TIMEOUT" (pos second);
      metrics_enabled = get_bool "LB_METRICS_ENABLED" true;
      metrics_addr = get_env "LB_METRICS_ADDR" ":9090";
      rate_limit_enabled = get_bool "LB_RATE_LIMIT_ENABLED" false;
      rate_limit_max = get_int "LB_RATE_LIMIT_MAX" (pos 100);
      rate_limit_window = get_duration "LB_RATE_LIMIT_WINDOW" (pos minute);
      request_limit_enabled = get_bool "LB_REQUEST_LIMIT_ENABLED" false;
      max_body_size = get_int64 "LB_MAX_BODY_SIZE" (pos default_body_size);
      max_header_size = get_int "LB_MAX_HEADER_SIZE" (pos 8192);
      tls_enabled = get_bool "LB_TLS_ENABLED" false;
      tls_cert_file = get_env "LB_TLS_CERT_FILE" "cert.pem";
      tls_key_file = get_env "LB_TLS_KEY_FILE" "key.pem";
      tls_auto_gen = get_bool "LB_TLS_AUTO_GEN" true;
    }

    -- `LoadConfig`; `log.Fatal` ends the program.
    unfoldable pub load_config : Option Config
    load_config = if length read_config.backend_urls == 0 then none else some read_config
