-- ===== src/Page/Session.antt =====
-- ui/dashboard.go: the page over a session: what its user does, and the answers as they come.
use poly_balance.Base.{
  ℕ, ◌≡◌, refl, ap, ◌∙◌, sym, String, Bool, not, ◌&&◌, if_elim, Bool-cases, inl, inr, ◌⊎◌, ℤ, List,
  [], ◌∷◌, str_eq, then_branch, else_branch,
}
use poly_balance.Dashboard.{BackendInfo, Sent}
use poly_balance.Page.Report.Bars.{report-Given}
use poly_balance.Page.{
  Browser, Page, Reply, thrown, refused, answered, Status, fresh_page, select, strategy_options,
  clear_logs, fetch_status, fetch_backends,
}
use poly_balance.Page.Actions.{
  includes, Message, Response, toggle_backend, backend_toggled, change_strategy,
  strategy_was_changed, toggle_rate_limit, toggle_request_limit, config_updated, rate_limit_updated,
  request_limit_updated, run_test, test_run, test_endpoint, endpoint_tested, refresh_all,
}
use poly_balance.Page.Report.{send_test_requests, requests_tested}

-- A field that a user types into.
pub data Field : Type 0 where
  rate_max rate_window body_size header_size count : Field

-- Every step of the page, with the clock's text where it is written.
pub data Action : Type 0 where
  types : Field → String → Action
  clears : Action
  status_comes : String → Reply Status → Action
  backends_come : String → Reply (List BackendInfo) → Action
  toggles : String → String → Action
  toggle_comes : String → Reply Message → Action
  chooses : String → String → Action
  choice_comes : String → Reply Message → Action
  clicks_rate clicks_request : Action
  config_comes rate_comes request_comes : String → String ⊎ ℕ → Action
  tests : String → String → Action
  test_comes : String → String ⊎ (String × Bool) → Action
  hits : String → String → Action
  hit_comes : String → String ⊎ Response → Action
  sends : String → Action
  results_come : String → String → String → ℤ → Reply (List Sent) → Action
  refreshes : String → Action

abbrev pub typed : Field → String → Page → Page
typed rate_max s p = record p { rate_limit_max = s }
typed rate_window s p = record p { rate_limit_window = s }
typed body_size s p = record p { max_body_size = s }
typed header_size s p = record p { max_header_size = s }
typed count s p = record p { request_count = s }

unfoldable pub perform : Browser → Action → Page → Page
perform b (types f s) p = typed f s p
perform b clears p = clear_logs p
perform b (status_comes time reply) p = fetch_status b time reply p
perform b (backends_come time reply) p = fetch_backends b time reply p
perform b (toggles time url) p = toggle_backend time url p
perform b (toggle_comes time reply) p = backend_toggled time reply p
perform b (chooses time name) p = change_strategy time name p
perform b (choice_comes time reply) p = strategy_was_changed time reply p
perform b clicks_rate p = (toggle_rate_limit p).0
perform b clicks_request p = (toggle_request_limit p).0
perform b (config_comes time reply) p = config_updated time reply p
perform b (rate_comes time reply) p = rate_limit_updated time reply p
perform b (request_comes time reply) p = request_limit_updated time reply p
perform b (tests time kind) p = run_test time kind p
perform b (test_comes time reply) p = test_run time reply p
perform b (hits time path) p = test_endpoint time path p
perform b (hit_comes time reply) p = endpoint_tested b time reply p
perform b (sends time) p = send_test_requests b time p
perform b (results_come now time strategy n reply) p = requests_tested b now time strategy n reply p
perform b (refreshes time) p = refresh_all time p

unfoldable pub session : Browser → List Action → Page → Page
unfolding perform
session b [] p = p
session b (a ∷ rest) p = session b rest (perform b a p)

-- A toggle's class and its variable, for both limiters, and the value of the strategy's element.
pub record Shows (rate rate_on request request_on : Bool) (strategy : String) : Type 0 where
  pub rate_shown : rate ≡ rate_on
  pub request_shown : request ≡ request_on
  pub an_option : select strategy_options strategy ≡ strategy

-- The toggles show the script's variables, and the strategy's element has an option or nothing.
abbrev pub IsValid : Page → Type 0
IsValid p =
    Shows p.rate_limit_active p.rate_limit_enabled p.request_limit_active p.request_limit_enabled
      p.strategy

-- What is selected is a choice of the same options.
select-cases : (os : List String) (s : String) → (select os s ≡ s) ⊎ (select os s ≡ "")
unfolding select
select-cases [] s = inr refl
select-cases (o ∷ os) s = elim (Bool-cases (str_eq o s)) [
  | inl found ↦ inl (then_branch (str_eq o s) _ _ found)
  | inr other ↦ elim (select-cases os s) [
    | inl e ↦ inl (else_branch (str_eq o s) _ _ other ∙ e)
    | inr e ↦ inr (else_branch (str_eq o s) _ _ other ∙ e)
  ]
]

selected :
    (s : String) → select strategy_options (select strategy_options s) ≡ select strategy_options s
unfolding select
selected s = elim (select-cases strategy_options s) [
  | inl e ↦ ap (select strategy_options) e
  | inr e ↦ ap (select strategy_options) e ∙ sym e
]

status-IsValid :
    (b : Browser) (time : String) (reply : Reply Status) (p : Page)
    → IsValid p
    → IsValid (fetch_status b time reply p)
unfolding fetch_status
status-IsValid b time (thrown message) p v = v
status-IsValid b time refused p v = record {
  rate_shown = v.rate_shown;
  request_shown = v.request_shown;
  an_option = selected "";
}
status-IsValid b time (answered s) p v = record {
  rate_shown = refl;
  request_shown = refl;
  an_option = selected s.settings.strategy;
}

results-IsValid :
    (b : Browser) (now time strategy : String) (n : ℤ) (reply : Reply (List Sent)) (p : Page)
    → IsValid p
    → IsValid (requests_tested b now time strategy n reply p)
unfolding requests_tested
results-IsValid b now time strategy n (thrown message) p v = v
results-IsValid b now time strategy n refused p v = v
results-IsValid b now time strategy n (answered rs) p v =
    let (text, drawn) = report-Given b time strategy n rs in rw (drawn, requests_tested) v

toggle-IsValid :
    (time : String) (reply : Reply Message) (p : Page)
    → IsValid p
    → IsValid (backend_toggled time reply p)
unfolding backend_toggled
toggle-IsValid time (thrown message) p v = v
toggle-IsValid time refused p v = v
toggle-IsValid time (answered o) p v =
    if_elim IsValid (not (str_eq o.message "") && includes "healthy" o.message) v v

perform-IsValid : (b : Browser) (a : Action) (p : Page) → IsValid p → IsValid (perform b a p)
unfolding perform fetch_backends clear_logs toggle_backend change_strategy strategy_was_changed
    toggle_rate_limit toggle_request_limit config_updated rate_limit_updated request_limit_updated
    run_test test_run test_endpoint endpoint_tested send_test_requests refresh_all
perform-IsValid b (types rate_max s) p v = v
perform-IsValid b (types rate_window s) p v = v
perform-IsValid b (types body_size s) p v = v
perform-IsValid b (types header_size s) p v = v
perform-IsValid b (types count s) p v = v
perform-IsValid b clears p v = v
perform-IsValid b (status_comes time reply) p v = status-IsValid b time reply p v
perform-IsValid b (backends_come time (thrown message)) p v = v
perform-IsValid b (backends_come time refused) p v = v
perform-IsValid b (backends_come time (answered infos)) p v = v
perform-IsValid b (toggles time url) p v = v
perform-IsValid b (toggle_comes time reply) p v = toggle-IsValid time reply p v
perform-IsValid b (chooses time name) p v = record {
  rate_shown = v.rate_shown;
  request_shown = v.request_shown;
  an_option = selected name;
}
perform-IsValid b (choice_comes time (thrown message)) p v = v
perform-IsValid b (choice_comes time refused) p v = v
perform-IsValid b (choice_comes time (answered o)) p v = v
perform-IsValid b clicks_rate p v = record {
  rate_shown = refl;
  request_shown = v.request_shown;
  an_option = v.an_option;
}
perform-IsValid b clicks_request p v = record {
  rate_shown = v.rate_shown;
  request_shown = refl;
  an_option = v.an_option;
}
perform-IsValid b (config_comes time (inl message)) p v = v
perform-IsValid b (config_comes time (inr code)) p v = v
perform-IsValid b (rate_comes time (inl message)) p v = v
perform-IsValid b (rate_comes time (inr code)) p v = v
perform-IsValid b (request_comes time (inl message)) p v = v
perform-IsValid b (request_comes time (inr code)) p v = v
perform-IsValid b (tests time kind) p v = v
perform-IsValid b (test_comes time (inl message)) p v = v
perform-IsValid b (test_comes time (inr (text, ok))) p v = v
perform-IsValid b (hits time path) p v = v
perform-IsValid b (hit_comes time (inl message)) p v = v
perform-IsValid b (hit_comes time (inr r)) p v = v
perform-IsValid b (sends time) p v = v
perform-IsValid b (results_come now time strategy n reply) p v =
    results-IsValid b now time strategy n reply p v
perform-IsValid b (refreshes time) p v = v

fresh-IsValid : IsValid fresh_page
unfolding fresh_page select
fresh-IsValid = record { rate_shown = refl; request_shown = refl; an_option = refl }

session-IsValid_of :
    (b : Browser) (actions : List Action) (p : Page) → IsValid p → IsValid (session b actions p)
unfolding session
session-IsValid_of b [] p v = v
session-IsValid_of b (a ∷ rest) p v =
    session-IsValid_of b rest (perform b a p) (perform-IsValid b a p v)

-- Whatever is typed and clicked from the loading of the page on, and whatever answers and errors come
-- in whatever order, both toggles show the switch that the next form sends, and the strategy's element
-- has one of its options or nothing.
pub session-IsValid : (b : Browser) (actions : List Action) → IsValid (session b actions fresh_page)
session-IsValid b actions = session-IsValid_of b actions fresh_page fresh-IsValid
