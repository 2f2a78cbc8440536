-- ===== src/Page.antt =====
-- ui/dashboard.go: the script of the dashboard's page, from `<script>` on, on the elements that it
-- reads and writes. Each function is cut at its `await`: what follows it is a step of its own, with
-- what the request gave. The clock's text is an argument.
pub mod Actions
pub mod Report
pub mod Shown
pub mod Typed
pub mod Click
pub mod Session
pub mod Chosen
pub mod Calls
mod Tests
use Prim.Native.String.{◌++◌}
use poly_balance.Base.{
  ℕ, ◌+◌, ◌*◌, ◌/◌, ◌-◌, ◌≤◌, ◌<◌, ◌≡◌, String, Bool, true, false, not, ℤ, pos, negsuc, List, [],
  ◌∷◌, ◌||◌, str_eq, if◌then◌else◌, ◌≤ℤ◌,
}
use poly_balance.Text.{decimal, concat}
use poly_balance.Dashboard.{Settings, BackendInfo, Answer, status, backend_list}

-- The integers that JavaScript's numbers, which are float64, have exactly.
abbrev pub IsSafe : ℤ → Type 0
IsSafe (pos n) = n ≤ 9007199254740991
IsSafe (negsuc n) = n < 9007199254740991

-- What the script leaves to the browser: the text of an integer that a JSON text has, `Math.round` of
-- a quotient times a number, encodeURIComponent, and the messages of the language's own errors.
pub record Browser : Type 0 where
  pub text_of : ℤ → String
  pub round_share : ℕ → ℤ → ℕ → ℤ
  pub encode : String → String
  pub not_json : String
  pub no_field : String
  pub no_function : String
  pub bad_count : String
  pub text_of-safe : (n : ℤ) → IsSafe n → text_of n ≡ decimal n
  pub round_share-bounds :
      (a b k : ℕ)
      → 0 < b
      → a ≤ b
      → (pos 0 ≤ℤ round_share a (pos b) k) × (round_share a (pos b) k ≤ℤ pos k)

pub data Kind : Type 0 where
  info success error : Kind

-- The children of the output: entries, or the text that `clearLogs` leaves.
pub data Node : Type 0 where
  entry : Kind → String → Node
  plain : String → Node

-- The script's variables, and the elements of the page that it names.
pub record Page : Type 0 where
  pub rate_limit_enabled : Bool
  pub request_limit_enabled : Bool
  pub rate_limit_active : Bool
  pub request_limit_active : Bool
  pub uptime : String
  pub strategy : String
  pub healthy_count : String
  pub total_count : String
  pub rate_limit_max : String
  pub rate_limit_window : String
  pub max_body_size : String
  pub max_header_size : String
  pub request_count : String
  pub backends : String
  pub output : List Node

-- The values of the options of the strategy.
abbrev pub strategy_options : List String
strategy_options = "round_robin" ∷ "least_connections" ∷ "latency" ∷ "consistent_hash" ∷ []

-- The page as it is loaded.
unfoldable pub fresh_page : Page
fresh_page = record {
  rate_limit_enabled = false;
  request_limit_enabled = false;
  rate_limit_active = false;
  request_limit_active = false;
  uptime = "0";
  strategy = "round_robin";
  healthy_count = "0";
  total_count = "0";
  rate_limit_max = "100";
  rate_limit_window = "60";
  max_body_size = "10485760";
  max_header_size = "8192";
  request_count = "10";
  backends = "<div class=\"backend-item\">Loading...</div>";
  output = plain "Ready for testing..." ∷ [];
}

-- A select that is given a value has it only if one of its options does.
unfoldable pub select : List String → String → String
select [] value = ""
select (o ∷ os) value = if str_eq o value then value else select os value

unfoldable pub log : String → Kind → String → Page → Page
unfolding concat
log time kind message p = record p {
  output = entry kind (concat ("[" ∷ time ∷ "] " ∷ message ∷ [])) ∷ p.output;
}

unfoldable pub clear_logs : Page → Page
clear_logs p = record p { output = plain "Logs cleared." ∷ [] }

-- What a fetch and the decoding of its body give: an exception, the object that a limiter refuses
-- with, which has none of the fields that the script reads, or the fields.
pub data Reply (A : Type 0) : Type 0 where
  thrown : String → Reply A
  refused : Reply A
  answered : A → Reply A

-- The fields of /api/status that the script reads.
pub record Status : Type 0 where
  pub uptime_seconds : ℕ
  pub healthy_backends : ℕ
  pub total_backends : ℕ
  pub settings : Settings

-- The status as the script reads it; the handler gives no other answer.
unfoldable pub status_reply : Browser → Answer → Reply Status
status_reply b (status up names total healthy settings) = answered (record {
  uptime_seconds = up;
  healthy_backends = healthy;
  total_backends = total;
  settings = settings;
})
status_reply b a = thrown b.not_json

-- `fetchStatus`: the elements are written one by one, and a refusal has no field `rate_limit`.
unfoldable pub fetch_status : Browser → String → Reply Status → Page → Page
unfolding log select
fetch_status b time (thrown message) p = log time error ("Failed to fetch status: " ++ message) p
fetch_status b time refused p =
    log time error ("Failed to fetch status: " ++ b.no_field)
      (record p { uptime = ""; strategy = ""; healthy_count = ""; total_count = "" })
fetch_status b time (answered s) p =
    let (rate_on, max_requests, window_secs, keys) = s.settings.rate_limit in
    let (request_on, max_body, max_header) = s.settings.request_limit in
    record p {
      uptime = b.text_of (pos s.uptime_seconds);
      strategy = select strategy_options s.settings.strategy;
      healthy_count = b.text_of (pos s.healthy_backends);
      total_count = b.text_of (pos s.total_backends);
      rate_limit_enabled = rate_on;
      request_limit_enabled = request_on;
      rate_limit_active = rate_on;
      request_limit_active = request_on;
      rate_limit_max = b.text_of max_requests;
      rate_limit_window = b.text_of window_secs;
      max_body_size = b.text_of max_body;
      max_header_size = b.text_of max_header;
    }

-- One backend of the list.
unfoldable pub row : Browser → BackendInfo → String
unfolding concat
row b i = concat (
    "<div class=\"backend-item\"><span class=\"backend-url\">"
    ∷ i.url
    ∷ "</span><div style=\"display:flex;align-items:center;gap:8px;\"><span class=\"badge "
    ∷ (if i.healthy then "healthy" else "unhealthy")
    ∷ "\">"
    ∷ (if i.healthy then "Healthy" else "Unhealthy")
    ∷ "</span><span style=\"color:#7f8c8d;font-size:0.75rem\">("
    ∷ b.text_of i.connections
    ∷ " conn)</span><button class=\"btn "
    ∷ (if i.healthy then "btn-danger" else "btn-success")
    ∷ "\" onclick=\"toggleBackendHealth('"
    ∷ i.url
    ∷ "')\" style=\"padding:5px 10px;font-size:0.7rem;\">"
    ∷ (if i.healthy then "Make Unhealthy" else "Make Healthy")
    ∷ "</button></div></div>"
    ∷ [])

unfoldable pub rows : Browser → List BackendInfo → String
unfolding row
rows b [] = ""
rows b (i ∷ is) = row b i ++ rows b is

unfoldable pub backends_reply : Browser → Answer → Reply (List BackendInfo)
backends_reply b (backend_list infos) = answered infos
backends_reply b a = thrown b.not_json

-- `fetchBackends`: a refusal is an object, which has no `map`.
unfoldable pub fetch_backends : Browser → String → Reply (List BackendInfo) → Page → Page
unfolding log rows
fetch_backends b time (thrown message) p =
    log time error ("Failed to fetch backends: " ++ message) p
fetch_backends b time refused p = log time error ("Failed to fetch backends: " ++ b.no_function) p
fetch_backends b time (answered infos) p = record p { backends = rows b infos }
