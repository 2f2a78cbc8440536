-- ===== src/Metrics/Tests.antt =====
-- A registry that is a list of names.
use poly_balance.Base.{
  ◌≡◌, refl, String, Bool, true, false, ◌||◌, Option, none, some, List, [], ◌∷◌, str_eq,
  if◌then◌else◌, then_branch, else_branch,
}
use poly_balance.Metrics.{Metric, Registry, init}

abbrev holds : String → List String → Bool
holds n [] = false
holds n (m ∷ ms) = str_eq m n || holds n ms

abbrev add : Metric → List String → Option (List String)
add m names = if holds m.name names then none else some (m.name ∷ names)

add-new :
    (m : Metric) (names : List String)
    → holds m.name names ≡ false
    → (names' : List String) × (add m names ≡ some names')
      × ((n : String) → holds n names' ≡ (str_eq m.name n || holds n names))
add-new m names free = (m.name ∷ names, else_branch (holds m.name names) _ _ free, λ n. refl)

add-taken : (m : Metric) (names : List String) → holds m.name names ≡ true → add m names ≡ none
add-taken m names taken = then_branch (holds m.name names) _ _ taken

abbrev names_only : Registry
names_only = record {
  R = List String;
  has = holds;
  register = add;
  register-new = add-new;
  register-taken = add-taken;
}

first_time :
    init names_only ("go_goroutines" ∷ [])
    ≡ some (
        "polybalance_backend_health" ∷ "polybalance_request_duration_seconds"
        ∷ "polybalance_active_connections" ∷ "polybalance_backend_failures_total"
        ∷ "polybalance_requests_total" ∷ "go_goroutines" ∷ [])
unfolding init
first_time = refl

name_taken : init names_only ("polybalance_active_connections" ∷ []) ≡ none
unfolding init
name_taken = refl
