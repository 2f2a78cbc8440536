-- ===== src/Page/Actions.antt =====
-- ui/dashboard.go: what the script does at a click or a change, before and after its request.
use Prim.Native.String.{◌++◌, slice}
use Prim.Native.Char.{code}
use poly_balance.Base.{
  ℕ, String, Bool, true, false, not, ◌&&◌, ◌||◌, pos, List, [], ◌∷◌, leb, str_eq, if◌then◌else◌,
  ◌⊎◌, inl, inr,
}
use poly_balance.Text.{concat}
use poly_balance.Http.Mux.{has_prefix}
use poly_balance.Dashboard.{
  Answer, strategy_missing, strategy_changed, strategy_invalid, url_missing, toggle_failed, toggled,
}
use poly_balance.Page.{
  Browser, Page, Kind, info, success, error, Reply, thrown, refused, answered, log, select,
  strategy_options,
}

-- The fields `status`, as its test for "ok", and `message` of an answer.
pub record Message : Type 0 where
  pub ok : Bool
  pub message : String

-- The answers to a POST of the toggle and of the strategy; `http.Error` writes no JSON.
unfoldable pub outcome_reply : Browser → Answer → Reply Message
outcome_reply b url_missing = answered (record { ok = false; message = "Backend URL required" })
outcome_reply b (toggle_failed message) = answered (record { ok = false; message = message })
outcome_reply b (toggled message) = answered (record { ok = true; message = message })
outcome_reply b strategy_missing =
    answered (record { ok = false; message = "Strategy name required" })
outcome_reply b (strategy_changed name) =
    answered (record { ok = true; message = concat ("Strategy changed to " ∷ name ∷ []) })
outcome_reply b (strategy_invalid name) =
    answered (record { ok = false; message = concat ("Invalid strategy: " ∷ name ∷ []) })
outcome_reply b a = thrown b.not_json

unfoldable pub kind_of : Bool → Kind
kind_of ok = if ok then success else error

-- `includes`.
unfoldable pub includes : String → String → Bool
unfolding has_prefix
includes part String.[] = has_prefix part ""
includes part (String.◌∷◌ c s) = has_prefix part (String.◌∷◌ c s) || includes part s

unfoldable pub toggle_backend : String → String → Page → Page
toggle_backend time url p = log time info (concat ("Toggling health for " ∷ url ∷ "..." ∷ [])) p

-- The lists are fetched again half a second later.
unfoldable pub backend_toggled : String → Reply Message → Page → Page
unfolding log includes kind_of
backend_toggled time (thrown message) p = log time error ("Toggle failed: " ++ message) p
backend_toggled time refused p = log time error "Toggle result: undefined" p
backend_toggled time (answered o) p =
    if not (str_eq o.message "") && includes "healthy" o.message
    then log time (kind_of o.ok)
        (concat ("Toggle result: " ∷ o.message ∷ " (wait ~10s for circuit breaker)" ∷ [])) p
    else log time (kind_of o.ok) ("Toggle result: " ++ o.message) p

-- An option is chosen, which the element has before its handler runs.
unfoldable pub change_strategy : String → String → Page → Page
unfolding log select
change_strategy time name p =
    log time info (concat ("Changing strategy to " ∷ name ∷ "..." ∷ []))
      (record p { strategy = select strategy_options name })

unfoldable pub strategy_form : String → List (String × String)
strategy_form name = ("strategy", name) ∷ []

-- The status is fetched next, unless an exception was thrown.
unfoldable pub strategy_was_changed : String → Reply Message → Page → Page
unfolding log kind_of
strategy_was_changed time (thrown message) p =
    log time error ("Failed to change strategy: " ++ message) p
strategy_was_changed time refused p = log time error "Strategy changed: undefined" p
strategy_was_changed time (answered o) p =
    log time (kind_of o.ok) ("Strategy changed: " ++ o.message) p

-- A Boolean in a form.
unfoldable pub text_of_bool : Bool → String
text_of_bool b = if b then "true" else "false"

-- A toggle is clicked: the page with the form that it sends.
unfoldable pub toggle_rate_limit : Page → Page × List (String × String)
unfolding text_of_bool
toggle_rate_limit p =
    let on = not p.rate_limit_enabled in
    (
      record p { rate_limit_enabled = on; rate_limit_active = on },
      ("rate_limit_enabled", text_of_bool on) ∷ [],
    )

unfoldable pub toggle_request_limit : Page → Page × List (String × String)
unfolding text_of_bool
toggle_request_limit p =
    let on = not p.request_limit_enabled in
    (
      record p { request_limit_enabled = on; request_limit_active = on },
      ("request_limit_enabled", text_of_bool on) ∷ [],
    )

-- The forms of the two buttons.
unfoldable pub rate_form : Page → List (String × String)
unfolding text_of_bool
rate_form p =
    ("rate_limit_enabled", text_of_bool p.rate_limit_enabled)
    ∷ ("rate_limit_max", p.rate_limit_max)
    ∷ ("rate_limit_window", p.rate_limit_window)
    ∷ []

unfoldable pub request_form : Page → List (String × String)
unfolding text_of_bool
request_form p =
    ("request_limit_enabled", text_of_bool p.request_limit_enabled)
    ∷ ("max_body_size", p.max_body_size)
    ∷ ("max_header_size", p.max_header_size)
    ∷ []

-- `FormValue` of a form that was sent: the first value of the name.
unfoldable pub form_value : List (String × String) → String → String
form_value [] name = ""
form_value ((key, value) ∷ form) name = if str_eq key name then value else form_value form name

-- `updateConfig` after its request, whose answer it does not read: the error, if none came.
unfoldable pub config_updated : String → String ⊎ ℕ → Page → Page
unfolding log
config_updated time (inl message) p = log time error ("Failed to update config: " ++ message) p
config_updated time (inr code) p = p

unfoldable pub rate_limit_updated : String → String ⊎ ℕ → Page → Page
unfolding log config_updated
rate_limit_updated time reply p =
    log time success "Rate limit settings updated" (config_updated time reply p)

unfoldable pub request_limit_updated : String → String ⊎ ℕ → Page → Page
unfolding log config_updated
request_limit_updated time reply p =
    log time success "Request limit settings updated" (config_updated time reply p)

unfoldable pub run_test : String → String → Page → Page
unfolding log
run_test time kind p = log time info (concat ("Running " ∷ kind ∷ " test..." ∷ [])) p

-- The answer as JSON.stringify prints it, and whether its `status` is "ok".
unfoldable pub test_run : String → String ⊎ (String × Bool) → Page → Page
unfolding log kind_of
test_run time (inl message) p = log time error ("Test failed: " ++ message) p
test_run time (inr (text, ok)) p = log time (kind_of ok) text p

unfoldable pub test_endpoint : String → String → Page → Page
unfolding log
test_endpoint time path p = log time info ("Testing endpoint: " ++ path) p

-- What `testEndpoint` gets: the status, the milliseconds, and the body.
pub record Response : Type 0 where
  pub code : ℕ
  pub elapsed : ℕ
  pub body : String

unfoldable pub endpoint_tested : Browser → String → String ⊎ Response → Page → Page
unfolding log kind_of
endpoint_tested b time (inl message) p = log time error ("Request failed: " ++ message) p
endpoint_tested b time (inr r) p =
    log time (kind_of (leb 200 r.code && leb r.code 299))
      (concat (
        "Status: "
        ∷ b.text_of (pos r.code)
        ∷ " ("
        ∷ b.text_of (pos r.elapsed)
        ∷ "ms)\n"
        ∷ slice r.body 0 500
        ∷ []))
      p

-- Both lists are being fetched.
unfoldable pub refresh_all : String → Page → Page
unfolding log
refresh_all time p = log time info "Dashboard refreshed" p
