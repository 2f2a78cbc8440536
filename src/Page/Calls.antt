-- ===== src/Page/Calls.antt =====
-- ui/dashboard.go: the requests of the page's script, and the handlers that they reach.
use Prim.Native.Char.{code}
use Prim.Native.String.{String, [], ◌∷◌, ◌++◌}
use Prim.Native.String.append
use poly_balance.Base.{
  ◌≡◌, refl, ap, sym, ◌∙◌, Bool, true, false, ◌||◌, Bool-cases, inl, inr, str_eq, str_eq_iff,
  then_branch, else_branch, ℤ, [], ◌∷◌, ◌==◌, if◌then◌else◌,
}
use poly_balance.Http.{Request}
use poly_balance.Http.Mux.{handled, handler_at, route}
use poly_balance.Main.Site.{
  Target, to_healthz, to_readyz, to_status, to_backends, to_toggle, to_config, to_test, to_send,
  to_strategy, to_balancer, routes,
}
use poly_balance.Page.{Browser}

-- What a button tests.
pub data Test : Type 0 where
  health ratelimit connection : Test

pub data Endpoint : Type 0 where
  healthz readyz root : Endpoint

-- Every `fetch` of the script; the forms are the bodies of the last two.
pub data Call : Type 0 where
  status backends : Call
  toggle : String → Call
  send_requests : ℤ → Call
  test : Test → Call
  endpoint : Endpoint → Call
  strategy config : Call

-- The arguments in the buttons' handlers.
abbrev pub type_of : Test → String
type_of health = "health"
type_of ratelimit = "ratelimit"
type_of connection = "connection"

abbrev pub path_of : Endpoint → String
path_of healthz = "/healthz"
path_of readyz = "/readyz"
path_of root = "/"

unfoldable pub method_of : Call → String
method_of (toggle url) = "POST"
method_of strategy = "POST"
method_of config = "POST"
method_of c = "GET"

-- The URL, relative to the page's.
unfoldable pub url_of : Browser → Call → String
url_of b status = "/api/status"
url_of b backends = "/api/backends"
url_of b (toggle url) = "/api/backends/toggle" ++ ("?url=" ++ b.encode url)
url_of b (send_requests count) = "/api/send-requests" ++ ("?count=" ++ b.text_of count)
url_of b (test t) = "/api/test" ++ ("?type=" ++ type_of t)
url_of b (endpoint e) = path_of e
url_of b strategy = "/api/strategy"
url_of b config = "/api/config"

-- The path of a URL of the script, up to its query.
unfoldable pub before_query : String → String
before_query [] = []
before_query (c ∷ s) = if code c == b'?' then [] else c ∷ before_query s

-- The handler that each is meant for.
abbrev pub meant_for : Call → Target
meant_for status = to_status
meant_for backends = to_backends
meant_for (toggle url) = to_toggle
meant_for (send_requests count) = to_send
meant_for (test t) = to_test
meant_for (endpoint healthz) = to_healthz
meant_for (endpoint readyz) = to_readyz
meant_for (endpoint root) = to_balancer
meant_for strategy = to_strategy
meant_for config = to_config

-- Whether a text has a question mark.
abbrev has_query : String → Bool
has_query [] = false
has_query (c ∷ s) = (code c == b'?') || has_query s

before_query-append :
    (s name x : String) → has_query s ≡ false → before_query (s ++ (("?" ∷ name) ++ x)) ≡ s
unfolding before_query
before_query-append [] name x h =
    ap before_query (append.nil (("?" ∷ name) ++ x) ∙ append.cons "?" name x)
before_query-append (c ∷ s) name x h = elim (Bool-cases (code c == b'?')) [
  | inl found ↦ absurd (cc (sym (ap (λ t. t || has_query s) found) ∙ h))
  | inr other ↦
      let later : has_query s ≡ false = sym (ap (λ t. t || has_query s) other) ∙ h in
      ap before_query (append.cons c s (("?" ∷ name) ++ x))
      ∙ else_branch (code c == b'?') [] (c ∷ before_query (s ++ (("?" ∷ name) ++ x))) other
      ∙ ap (λ (t : String). c ∷ t) (before_query-append s name x later)
]

-- The path that a request asks for.
abbrev path_to : Call → String
path_to status = "/api/status"
path_to backends = "/api/backends"
path_to (toggle url) = "/api/backends/toggle"
path_to (send_requests count) = "/api/send-requests"
path_to (test t) = "/api/test"
path_to (endpoint e) = path_of e
path_to strategy = "/api/strategy"
path_to config = "/api/config"

url_of-path : (b : Browser) (c : Call) → before_query (url_of b c) ≡ path_to c
unfolding before_query url_of
url_of-path b status = refl
url_of-path b backends = refl
url_of-path b (toggle url) = before_query-append "/api/backends/toggle" "url=" (b.encode url) refl
url_of-path b (send_requests count) =
    before_query-append "/api/send-requests" "count=" (b.text_of count) refl
url_of-path b (test t) = before_query-append "/api/test" "type=" (type_of t) refl
url_of-path b (endpoint healthz) = refl
url_of-path b (endpoint readyz) = refl
url_of-path b (endpoint root) = refl
url_of-path b strategy = refl
url_of-path b config = refl

path_to-handled :
    (c : Call)
    → (handler_at routes (path_to c) ≡ handled (meant_for c)) × (str_eq (path_to c) "*" ≡ false)
unfolding handler_at
path_to-handled status = (refl, refl)
path_to-handled backends = (refl, refl)
path_to-handled (toggle url) = (refl, refl)
path_to-handled (send_requests count) = (refl, refl)
path_to-handled (test t) = (refl, refl)
path_to-handled (endpoint healthz) = (refl, refl)
path_to-handled (endpoint readyz) = (refl, refl)
path_to-handled (endpoint root) = (refl, refl)
path_to-handled strategy = (refl, refl)
path_to-handled config = (refl, refl)

not_connect : (c : Call) → str_eq (method_of c) "CONNECT" ≡ false
unfolding method_of
not_connect status = refl
not_connect backends = refl
not_connect (toggle url) = refl
not_connect (send_requests count) = refl
not_connect (test t) = refl
not_connect (endpoint e) = refl
not_connect strategy = refl
not_connect config = refl

not_asterisk : (b : Browser) (c : Call) (uri : String) → uri ≡ url_of b c → str_eq uri "*" ≡ false
unfolding before_query
not_asterisk b c uri e = elim (Bool-cases (str_eq uri "*")) [
  | inl star ↦
      let path : path_to c ≡ "*" =
        sym (url_of-path b c) ∙ ap before_query (sym e ∙ (str_eq_iff uri "*").0 star) in
      cc ((path_to-handled c).1, (str_eq_iff (path_to c) "*").1 path)
  | inr other ↦ other
]

-- Every request that the script makes is routed by the balancer's mux to the handler that it is meant
-- for, whatever the texts and numbers in its query are, if the cleaning of paths leaves its path as it
-- is.
pub call-routed :
    (b : Browser) (clean : String → String) (c : Call) (r : Request)
    → r.method ≡ method_of c
    → r.uri ≡ url_of b c
    → r.path ≡ before_query r.uri
    → clean r.path ≡ r.path
    → route clean routes r ≡ handled (meant_for c)
unfolding route
call-routed b clean c r method uri path cleaned =
    let plain : str_eq r.uri "*" ≡ false = not_asterisk b c r.uri uri in
    let direct : str_eq r.method "CONNECT" ≡ false =
      ap (λ m. str_eq m "CONNECT") method ∙ not_connect c in
    let fixed : str_eq (clean r.path) r.path ≡ true =
      (str_eq_iff (clean r.path) r.path).1 cleaned in
    let there : r.path ≡ path_to c = path ∙ ap before_query uri ∙ url_of-path b c in
    else_branch (str_eq r.uri "*") _ _ plain
    ∙ else_branch (str_eq r.method "CONNECT") _ _ direct
    ∙ then_branch (str_eq (clean r.path) r.path) _ _ fixed
    ∙ ap (handler_at routes) there
    ∙ (path_to-handled c).0
