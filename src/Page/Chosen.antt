-- ===== src/Page/Chosen.antt =====
-- ui/dashboard.go: the strategy that is chosen on the page, and what the page says of its requests.
use Prim.Native.Char.{Char}
use Prim.Native.String.{String, [], ◌∷◌, ◌++◌}
use poly_balance.Base.{
  ℕ, ◌≡◌, refl, sym, ap, ◌∙◌, true, ◌||◌, Bool-cases, inl, inr, [], ◌∷◌, All, str_eq, str_eq_iff,
  arith,
}
use poly_balance.Text.{concat}
use poly_balance.Http.Mux.{has_prefix}
use poly_balance.Server.Controller.{set}
use poly_balance.Dashboard.{Dashboard, handle_strategy, handle_status, report, strategy_changed}
use poly_balance.Dashboard
use poly_balance.Page.{
  Browser, Page, success, answered, log, select, strategy_options, fetch_status, status_reply,
}
use poly_balance.Page.Actions.{
  Message, outcome_reply, kind_of, includes, backend_toggled, change_strategy, strategy_form,
  strategy_was_changed, form_value,
}

-- What a name that is chosen leads to: the balancer takes it, the page says so, and shows it once
-- the next status has arrived.
abbrev pub IsTaken : Browser → String → ℕ → Page → Dashboard → String → Type 0
IsTaken b time now p d name =
    let (d', a) = handle_strategy "POST" (inr (form_value (strategy_form name))) d in
    let told = strategy_was_changed time (outcome_reply b a) (change_strategy time name p) in
    (d'.controller.name ≡ name)
    × (told
        ≡ log time success ("Strategy changed: Strategy changed to " ++ name)
            (change_strategy time name p))
    × ((fetch_status b time (status_reply b (handle_status now d')) told).strategy ≡ name)

-- Every option of the page is a strategy that the balancer takes: it has that name after the request,
-- the page reports success, and it shows the option once the next status has arrived.
pub options-IsTaken :
    (b : Browser) (time : String) (now : ℕ) (p : Page) (d : Dashboard)
    → All (IsTaken b time now p d) strategy_options
unfolding handle_strategy Dashboard.change_strategy set form_value strategy_form
    strategy_was_changed outcome_reply kind_of concat change_strategy fetch_status status_reply
    handle_status report log select
options-IsTaken b time now p d =
    ((refl, refl, refl), ((refl, refl, refl), ((refl, refl, refl), ((refl, refl, refl), tt))))

-- A text that begins with a part includes it, and what a text includes stays in it when more is put
-- before.
prefix-included : (part m : String) → has_prefix part m ≡ true → includes part m ≡ true
unfolding includes
prefix-included part [] h = h
prefix-included part (c ∷ m) h = rw h refl

included_later :
    (part m : String) (c : Char) → includes part m ≡ true → includes part (c ∷ m) ≡ true
unfolding includes
included_later part m c h = ground arith

-- Without its first character a part is included where the whole begins.
tail-included :
    (c : Char) (part m : String)
    → has_prefix (c ∷ part) m ≡ true
    → (d : Char) × (m' : String) × (m ≡ d ∷ m') × (has_prefix part m' ≡ true)
unfolding has_prefix
tail-included c part [] h = ground arith
tail-included c part (d ∷ m) h = (d, m, refl, ground arith)

begins_unhealthy : (m : String) → has_prefix "unhealthy" m ≡ true → includes "healthy" m ≡ true
begins_unhealthy m h =
    let (c, m', e, h') = tail-included "u" "nhealthy" m h in
    let (d, m'', e', h'') = tail-included "n" "healthy" m' h' in
    rw (e, e')
      (included_later "healthy" (d ∷ m'') c
        (included_later "healthy" m'' d (prefix-included "healthy" m'' h'')))

unhealthy-healthy : (m : String) → includes "unhealthy" m ≡ true → includes "healthy" m ≡ true
unfolding includes
unhealthy-healthy [] h = ground (arith, begins_unhealthy "")
unhealthy-healthy (c ∷ m) h = elim (Bool-cases (has_prefix "unhealthy" (c ∷ m))) [
  | inl first ↦ begins_unhealthy (c ∷ m) first
  | inr later ↦
      included_later "healthy" m c
        (unhealthy-healthy m (sym (ap (λ t. t || includes "unhealthy" m) later) ∙ h))
]

nothing_included : includes "unhealthy" "" ≡ true → ⊥
unfolding includes has_prefix
nothing_included e = cc e

-- A reply that says "unhealthy" is told with the advice to wait for the circuit breaker as well, which
-- is meant for a backend that has become healthy.
pub unhealthy-advised :
    (time : String) (o : Message) (p : Page)
    → includes "unhealthy" o.message ≡ true
    → backend_toggled time (answered o) p
      ≡ log time
          (kind_of o.ok)
          (concat ("Toggle result: " ∷ o.message ∷ " (wait ~10s for circuit breaker)" ∷ []))
          p
unfolding backend_toggled
unhealthy-advised time o p h = elim (Bool-cases (str_eq o.message "")) [
  | inl empty ↦
      let clash : includes "unhealthy" "" ≡ true =
        sym (ap (includes "unhealthy") ((str_eq_iff o.message "").0 empty)) ∙ h in
      absurd (nothing_included clash)
  | inr given ↦ rw (given, unhealthy-healthy o.message h) refl
]
