-- ===== src/Main/Site/Routes.antt =====
-- The routes of cmd/main.go: which paths go to the backends.
use poly_balance.Base.{
  ◌≡◌, refl, ◌∙◌, ap, String, true, false, Option, some, none, List, [], ◌∷◌, ◌++◌, All, str_eq,
  if_elim, then_branch, else_branch,
}
use poly_balance.Http.{Request}
use poly_balance.Http.Mux.{
  Route, handled, not_found, route, handler_at, find, matches, has_prefix, ends_in_slash,
}
use poly_balance.Main.Site.{Target, to_balancer, routes, health_routes, dashboard_routes}

-- Routes that do not match are passed over.
find_skip :
    {A : Type 0} (path : String) (front back : List (String × A))
    → All (λ own. matches own.0 path ≡ false) front
    → find path (front ++ back) ≡ find path back
unfolding find
find_skip path [] back all = refl
find_skip path ((pattern, a) ∷ front) back all =
    else_branch (matches pattern path) _ _ all.0 ∙ find_skip path front back all.1

found_balancer :
    (path : String)
    → All (λ own. matches own.0 path ≡ false) (health_routes ++ dashboard_routes)
    → has_prefix "/" path ≡ true
    → find path routes ≡ some ("/", to_balancer)
unfolding matches ends_in_slash find
found_balancer path own root =
    find_skip path (health_routes ++ dashboard_routes) (("/", to_balancer) ∷ []) own
    ∙ then_branch (matches "/" path) _ _ root

-- Every clean path from the root that no pattern of the health endpoints and of the dashboard
-- matches goes to the backends, for any method: it is not redirected or refused by the mux.
pub route-balancer :
    (clean : String → String) (r : Request)
    → str_eq r.uri "*" ≡ false
    → str_eq (clean r.path) r.path ≡ true
    → All (λ own. matches own.0 r.path ≡ false) (health_routes ++ dashboard_routes)
    → has_prefix "/" r.path ≡ true
    → route clean routes r ≡ handled to_balancer
unfolding route handler_at
route-balancer clean r one_path tidy own root =
    let found : handler_at routes r.path ≡ handled to_balancer =
      ap
        (λ (o : Option (String × Target)). elim o [
          | none ↦ not_found
          | some (pattern, a) ↦ handled a
        ])
        (found_balancer r.path own root) in
    rw (one_path, tidy)
      (if_elim (λ (goal : Route Target). goal ≡ handled to_balancer) (str_eq r.method "CONNECT")
        found found)
