-- ===== src/Metrics/Registered.antt =====
-- metrics/metrics.go: when `init` succeeds, and what its server answers.
use poly_balance.Base.{
  ◌≡◌, refl, sym, ap, ◌∙◌, subst, String, Bool, true, false, ◌||◌, Bool-cases, inl, inr, none, some,
  List, [], ◌∷◌, str_eq, if◌then◌else◌, arith, All,
}
use poly_balance.Http.Mux.{handler_at, find, matches, ends_in_slash, handled, not_found}
use poly_balance.Metrics.{Metric, Registry, register_all, init, all_metrics, metrics_routes}

-- Whether a name is one of the metrics', and whether one of their names is taken.
abbrev pub is_named : String → List Metric → Bool
is_named n [] = false
is_named n (m ∷ ms) = str_eq m.name n || is_named n ms

abbrev pub any_taken : (String → Bool) → List Metric → Bool
any_taken has [] = false
any_taken has (m ∷ ms) = has m.name || any_taken has ms

-- No two metrics have the same name.
abbrev pub AreDistinct : List Metric → Type 0
AreDistinct [] = Unit
AreDistinct (m ∷ ms) = All (λ k. str_eq m.name k.name ≡ false) ms × AreDistinct ms

-- What is taken after one more name.
taken_after :
    (has has' : String → Bool) (m : Metric) (ms : List Metric)
    → ((n : String) → has' n ≡ (str_eq m.name n || has n))
    → All (λ k. str_eq m.name k.name ≡ false) ms
    → any_taken has' ms ≡ any_taken has ms
taken_after has has' m [] h d = refl
taken_after has has' m (k ∷ ms) h d =
    let same : has' k.name ≡ has k.name = h k.name ∙ ap (λ t. t || has k.name) d.0 in
    ground (arith, same, taken_after has has' m ms h d.1)

or_moved : (a b c : Bool) → (a || (b || c)) ≡ ((b || a) || c)
or_moved true true c = refl
or_moved true false c = refl
or_moved false true c = refl
or_moved false false c = refl

module _ (reg : Registry) where
  -- The outcome of a row of registrations.
  abbrev pub Registered : List Metric → reg.R → Type 0
  Registered ms r =
      (r' : reg.R) × (register_all reg ms r ≡ some r')
      × ((n : String) → reg.has n r' ≡ (is_named n ms || reg.has n r))

  all-Registered :
      (ms : List Metric) (r : reg.R)
      → AreDistinct ms
      → any_taken (λ n. reg.has n r) ms ≡ false
      → Registered ms r
  unfolding register_all
  all-Registered [] r d free = (r, refl, λ n. refl)
  all-Registered (m ∷ ms) r d free =
      let new : reg.has m.name r ≡ false = ground arith in
      let rest : any_taken (λ n. reg.has n r) ms ≡ false = ground arith in
      let (r1, taken, has1) = reg.register-new m r new in
      let (r2, others, has2) =
        all-Registered ms r1 d.1
          (taken_after (λ n. reg.has n r) (λ n. reg.has n r1) m ms has1 d.0 ∙ rest) in
      (
        r2,
        rw (taken, register_all) others,
        λ n.
            has2 n
            ∙ ap (λ t. is_named n ms || t) (has1 n)
            ∙ or_moved (is_named n ms) (str_eq m.name n) (reg.has n r),
      )

  one_taken :
      (ms : List Metric) (r : reg.R)
      → AreDistinct ms
      → any_taken (λ n. reg.has n r) ms ≡ true
      → register_all reg ms r ≡ none
  unfolding register_all
  one_taken [] r d taken = ground arith
  one_taken (m ∷ ms) r d taken = elim (Bool-cases (reg.has m.name r)) [
    | inl old ↦ rw (reg.register-taken m r old, register_all) refl
    | inr new ↦
        let (r1, fresh, has1) = reg.register-new m r new in
        let later : any_taken (λ n. reg.has n r1) ms ≡ true =
          taken_after (λ n. reg.has n r) (λ n. reg.has n r1) m ms has1 d.0
          ∙ sym (ap (λ t. t || any_taken (λ n. reg.has n r) ms) new)
          ∙ taken in
        rw (fresh, register_all) (one_taken ms r1 d.1 later)
  ]

  -- What `init` comes to, by whether one of the names is taken: a panic; or the five names and no
  -- other are new, and a second `init` panics.
  abbrev pub Started : Bool → reg.R → Type 0
  Started true r = init reg r ≡ none
  Started false r =
      (r' : reg.R) × (init reg r ≡ some r')
      × ((n : String) → reg.has n r' ≡ (is_named n all_metrics || reg.has n r))
      × (init reg r' ≡ none)

  names_differ : AreDistinct all_metrics
  names_differ = (
    (refl, (refl, (refl, (refl, tt)))),
    ((refl, (refl, (refl, tt))), ((refl, (refl, tt)), ((refl, tt), (tt, tt)))),
  )

  new-Started : (r : reg.R) → any_taken (λ n. reg.has n r) all_metrics ≡ false → Started false r
  unfolding init
  new-Started r free =
      let (r', done, has') = all-Registered all_metrics r names_differ free in
      let again : any_taken (λ n. reg.has n r') all_metrics ≡ true =
        ground (arith, has' "polybalance_requests_total") in
      (r', done, has', one_taken all_metrics r' names_differ again)

  -- `init` panics exactly when one of the five names is taken before it; otherwise the registry has
  -- the five names after it and no other new one, so that a second `init` panics.
  pub init-Started : (r : reg.R) → Started (any_taken (λ n. reg.has n r) all_metrics) r
  unfolding init
  init-Started r = elim (Bool-cases (any_taken (λ n. reg.has n r) all_metrics)) [
    | inl taken ↦ subst (λ t. Started t r) (sym taken) (one_taken all_metrics r names_differ taken)
    | inr free ↦ subst (λ t. Started t r) (sym free) (new-Started r free)
  ]

-- The server of the metrics has a handler for /metrics and for no other path.
pub only_metrics {ℓ} :
    {A : Type ℓ} (handler : A) (path : String)
    → handler_at (metrics_routes handler) path
      ≡ (if str_eq "/metrics" path then handled handler else not_found)
unfolding handler_at find matches ends_in_slash
only_metrics handler path = ground arith
