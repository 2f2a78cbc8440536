-- ===== src/Demo/Toggle.antt =====
-- What a toggle of a demonstration server does to the picks of the balancer.
use poly_balance.Base.{
  ℕ, zero, suc, ◌+◌, ◌<◌, ◌≡◌, ◌≢◌, refl, sym, ◌∙◌, subst, true, false, Option, none, some, List, ℤ,
  [], ◌∷◌, map, length, modify, get_elem?, get_elem?-modify_same, All, arith, length-modify,
}
use poly_balance.Backend.{Backend, check_circuit_state, get_active_connections, get_average_latency}
use poly_balance.Strategy.Avail.{available}
use poly_balance.Strategy.Scan.{least_connections, lowest_latency}
use poly_balance.Strategy.Scan.Minimum.{Picks, least_connections-Picks, lowest_latency-Picks}
use poly_balance.Strategy.RoundRobin.{RoundRobin}
use poly_balance.Strategy.RoundRobin
use poly_balance.Strategy.RoundRobin.Order.{next_backend-FirstFrom}
use poly_balance.Http.{unsent}
use poly_balance.Health.{HealthChecker, check_all}
use poly_balance.Health.Rounds.{HasRoom, length-check_from}
use poly_balance.Demo.{Demo, Library, handle, store_toggled}
use poly_balance.Demo.Fleet.{is_up, fleet, get_of, KeepsPaths, toggle-store, round_follows_health}

available-up :
    (bs : List Backend) (demos : List Demo) (now i : ℕ)
    → map (λ b. check_circuit_state b now) bs ≡ map is_up demos
    → available bs now i ≡ true
    → (d : Demo) × (get_elem? demos i ≡ some d) × (is_up d ≡ true)
unfolding available
available-up [] demos now i same open_now = ground arith
available-up (b ∷ bs) [] now i same open_now = cc
available-up (b ∷ bs) (d ∷ demos) now zero same open_now =
    let heads : check_circuit_state b now ≡ is_up d = cc in (d, refl, sym heads ∙ open_now)
available-up (b ∷ bs) (d ∷ demos) now (suc i) same open_now =
    let tails : map (λ c. check_circuit_state c now) bs ≡ map is_up demos = cc in
    available-up bs demos now i tails open_now

picked-available :
    (reading : Backend → ℤ) (bs : List Backend) (now k : ℕ) (r : Option ℕ)
    → Picks reading bs now r
    → r ≡ some k
    → available bs now k ≡ true
picked-available reading bs now k none p e = cc
picked-available reading bs now k (some s) p e =
    let same : s ≡ k = cc in subst (λ i. available bs now i ≡ true) same p.open_now

-- A backend that is no more available is picked by none of the strategies that look.
unpicked :
    (bs : List Backend) (now k : ℕ) (rr : RoundRobin)
    → rr.counter + length bs < 18446744073709551616
    → available bs now k ≢ true
    → (least_connections bs now ≢ some k)
      × (lowest_latency bs now ≢ some k)
      × ((RoundRobin.next_backend rr bs now).1 ≢ some k)
unpicked bs now k rr room shut = (
  λ e. shut (picked-available get_active_connections bs now k _ (least_connections-Picks bs now) e),
  λ e. shut (picked-available get_average_latency bs now k _ (lowest_latency-Picks bs now) e),
  λ e. shut (next_backend-FirstFrom rr bs now k room e).2.open_now,
)

-- The server after a GET of its toggle.
abbrev pub toggled : Library → ℕ → Demo → Demo
toggled lib now d = (handle lib now (get_of "/toggle-health") (d, unsent)).0

module _ (lib : Library) (keeps : KeepsPaths lib) (d : Demo) where
  toggled_down : (now : ℕ) → is_up d ≡ true → is_up (toggled lib now d) ≡ false
  unfolding store_toggled
  toggled_down now up =
      let down : is_up (store_toggled d.healthy d) ≡ false = rw up refl in
      subst (λ (c : Demo). is_up c ≡ false) (sym (toggle-store lib keeps now d)) down

  -- Once the toggle of a healthy server has been fetched, and the checker, whose path is /healthz, has
  -- made its next round over backends whose circuits are closed with at most three failures, one for
  -- each server, no request is routed to that server by least connections, by the latency strategy,
  -- or by round robin with a counter that does not wrap. It is assumed that the cleaning of paths
  -- keeps the two paths.
  pub toggled_out :
      (hc : HealthChecker) (now later k : ℕ) (demos : List Demo) (bs : List Backend)
      (rr : RoundRobin)
      → hc.path ≡ "/healthz"
      → length demos ≡ length bs
      → All HasRoom bs
      → rr.counter + length bs < 18446744073709551616
      → get_elem? demos k ≡ some d
      → is_up d ≡ true
      → let after = check_all hc (fleet lib hc now (modify demos k (λ _. toggled lib now d))) bs in
        (least_connections after later ≢ some k)
        × (lowest_latency after later ≢ some k)
        × ((RoundRobin.next_backend rr after later).1 ≢ some k)
  unfolding check_all
  toggled_out hc now later k demos bs rr path long room small at up =
      let demos' = modify demos k (λ _. toggled lib now d) in
      let after = check_all hc (fleet lib hc now demos') bs in
      let same =
        round_follows_health lib keeps hc now later demos' bs path (length-modify demos k _ ∙ long)
          room in
      let fits : rr.counter + length after < 18446744073709551616 =
        omega (arith, small, length-check_from hc (fleet lib hc now demos') 0 bs) in
      unpicked after later k rr fits (λ open_now.
        let (c, found, c_up) = available-up after demos' later k same open_now in
        let down : is_up c ≡ false =
          let e : toggled lib now d ≡ c =
            cc (found, get_elem?-modify_same demos k (toggled lib now d) at) in
          subst (λ (x : Demo). is_up x ≡ false) e (toggled_down now up) in
        ground (arith, c_up, down))
