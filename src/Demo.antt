-- ===== src/Demo.antt =====
-- cmd/backend/main.go: the demonstration server behind the balancer.
-- Its two variables are atomic; a toggle is a load and then a store. The headers of its answers are
-- left out, and encoding/json is an argument.
pub mod Fleet
pub mod Toggle
mod Tests
use Prim.Native.String.{◌++◌}
use poly_balance.Base.{
  ℕ, ◌+◌, ◌%◌, String, Bool, true, false, not, ℤ, pos, negsuc, suc, List, [], ◌∷◌, ◌==◌, str_eq,
  if◌then◌else◌,
}
use poly_balance.Text.{itoa, decimal}
use poly_balance.Http.{Request, Writer, header_get, write, write_header}
use poly_balance.Http.Mux.{route, follow}

pub record Demo : Type 0 where
  pub server_name : String
  pub healthy : ℕ
  pub request_count : ℕ

-- The server as `main` starts it, by its flags.
unfoldable pub new_demo : ℤ → String → Demo
unfolding decimal
new_demo port name = record {
  server_name = if str_eq name "" then "backend-" ++ decimal port else name;
  healthy = 1;
  request_count = 0;
}

unfoldable pub handle_healthz : Demo → Writer → Writer
unfolding write write_header
handle_healthz d w =
    if d.healthy == 1
    then write "ok" (write_header 200 w)
    else write "unhealthy" (write_header 503 w)

unfoldable pub handle_readyz : Writer → Writer
unfolding write write_header
handle_readyz w = write "ready" (write_header 200 w)

-- The store of a toggle that has loaded `current`.
unfoldable pub store_toggled : ℕ → Demo → Demo
store_toggled current d = record d { healthy = if current == 1 then 0 else 1 }

unfoldable pub handle_toggle_health : Demo → Writer → Demo × Writer
unfolding store_toggled write
handle_toggle_health d w = (
  store_toggled d.healthy d,
  if d.healthy == 1 then write "Now unhealthy" w else write "Now healthy" w,
)

-- `atomic.AddUint64(&requestCount, 1)`.
unfoldable pub count_request : Demo → Demo
count_request d = record d { request_count = (d.request_count + 1) % 18446744073709551616 }

-- What the answer of the root tells.
pub record Greeting : Type 0 where
  pub server : String
  pub request_count : ℕ
  pub request_id : String
  pub path : String
  pub method : String
  pub timestamp : String
  pub message : String

-- The identifier that the client sends, or one of the server's name, the clock and the count.
unfoldable pub request_id_of : Request → ℕ → Demo → String
request_id_of r now d =
    if str_eq (header_get "X-Request-ID" r.header) ""
    then d.server_name ++ ("-" ++ (itoa now ++ ("-" ++ itoa d.request_count)))
    else header_get "X-Request-ID" r.header

unfoldable pub greet : (ℕ → String) → ℕ → Request → Demo → Greeting
unfolding request_id_of
greet rfc3339 now r d = record {
  server = d.server_name;
  request_count = d.request_count;
  request_id = request_id_of r now d;
  path = r.path;
  method = r.method;
  timestamp = rfc3339 now;
  message = "Hello from " ++ (d.server_name ++ "!");
}

pub data Page : Type 0 where
  healthz_page readyz_page toggle_page root_page : Page

abbrev pub pages : List (String × Page)
pages =
    ("/healthz", healthz_page)
    ∷ ("/readyz", readyz_page)
    ∷ ("/toggle-health", toggle_page)
    ∷ ("/", root_page)
    ∷ []

-- The library's parts: the cleaning of paths, the page of a redirect, the format of the clock and the
-- encoding.
pub record Library : Type 0 where
  pub clean : String → String
  pub page : String → String
  pub rfc3339 : ℕ → String
  pub encode : Greeting → String

unfoldable pub handle_root : Library → ℕ → Request → Demo → Writer → Demo × Writer
unfolding count_request greet write
handle_root lib now r d w =
    let d' = count_request d in (d', write (lib.encode (greet lib.rfc3339 now r d')) w)

unfoldable pub serve_page : Library → ℕ → Request → Page → Demo × Writer → Demo × Writer
unfolding handle_healthz handle_readyz handle_toggle_health handle_root
serve_page lib now r healthz_page (d, w) = (d, handle_healthz d w)
serve_page lib now r readyz_page (d, w) = (d, handle_readyz w)
serve_page lib now r toggle_page (d, w) = handle_toggle_health d w
serve_page lib now r root_page (d, w) = handle_root lib now r d w

-- The handler of the listener.
unfoldable pub handle : Library → ℕ → Request → Demo × Writer → Demo × Writer
unfolding serve_page
handle lib now r (d, w) = follow lib.page (serve_page lib now r) r (route lib.clean pages r) (d, w)
