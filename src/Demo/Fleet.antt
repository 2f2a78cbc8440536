-- ===== src/Demo/Fleet.antt =====
-- Demonstration servers behind the balancer, and what the health checker finds of them. The n-th
-- backend is the n-th server.
use poly_balance.Base.{
  ℕ, suc, ◌+◌, ◌≡◌, refl, sym, ap, ◌∙◌, String, Bool, Bool-cases, inl, inr, Option, none, some,
  List, [], ◌∷◌, map, length, get_elem?, All, ◌==◌, pos, arith,
}
use poly_balance.Backend.{Backend, check_circuit_state}
use poly_balance.Http.{Request, Writer, unsent, write, write_header}
use poly_balance.Http.Mux.{
  handled, follow, route, handler_at, find, matches, ends_in_slash, has_prefix, size,
}
use poly_balance.Health.{HealthChecker, Network, Reply, failed, responded, check_all}
use poly_balance.Health.Rounds.{HasRoom, is_healthy, verdicts, check_all-verdicts}
use poly_balance.Demo.{
  Demo, Library, healthz_page, toggle_page, handle, serve_page, handle_healthz,
  handle_toggle_health, store_toggled, pages,
}

-- A GET of a path.
abbrev pub get_of : String → Request
get_of path = record {
  method = "GET";
  host = "";
  uri = path;
  path = path;
  raw_query = "";
  query = λ name. "";
  remote_addr = "";
  header = [];
  content_length = pos 0;
  body = [];
}

-- The response that a client gets: 200 where the handler has sent no status.
abbrev pub reply_of : Writer → Reply
reply_of w = responded (elim w.sent [ none ↦ 200 | some code ↦ code ])

-- What the probes of a round meet. A probe of their health leaves the servers as they are.
abbrev pub fleet : Library → HealthChecker → ℕ → List Demo → Network
fleet lib hc now demos n text = elim (get_elem? demos n) [
  | none ↦ (failed, now)
  | some d ↦ (reply_of (handle lib now (get_of hc.path) (d, unsent)).1, now)
]

abbrev pub is_up : Demo → Bool
is_up d = d.healthy == 1

healthz-verdict : (d : Demo) → is_healthy (reply_of (handle_healthz d unsent)) ≡ is_up d
unfolding handle_healthz write write_header
healthz-verdict d = elim (Bool-cases (d.healthy == 1)) [
  | inl up ↦ rw up refl
  | inr down ↦ rw down refl
]

-- `path.Clean` leaves the two paths as they are.
abbrev pub KeepsPaths : Library → Type 0
KeepsPaths lib =
    (lib.clean "/healthz" ≡ "/healthz") × (lib.clean "/toggle-health" ≡ "/toggle-health")

module _ (lib : Library) (keeps : KeepsPaths lib) where
  healthz-route : route lib.clean pages (get_of "/healthz") ≡ handled healthz_page
  unfolding route handler_at find matches ends_in_slash has_prefix size
  healthz-route = rw (keeps.0) refl

  toggle-route : route lib.clean pages (get_of "/toggle-health") ≡ handled toggle_page
  unfolding route handler_at find matches ends_in_slash has_prefix size
  toggle-route = rw (keeps.1) refl

  probe-verdict :
      (now : ℕ) (d : Demo)
      → is_healthy (reply_of (handle lib now (get_of "/healthz") (d, unsent)).1) ≡ is_up d
  unfolding handle follow serve_page
  probe-verdict now d = rw healthz-route (healthz-verdict d)

  fleet-verdict :
      (hc : HealthChecker) (now : ℕ) (demos : List Demo) (n : ℕ) (text : String) {d : Demo}
      → hc.path ≡ "/healthz"
      → get_elem? demos n ≡ some d
      → is_healthy (fleet lib hc now demos n text).0 ≡ is_up d
  fleet-verdict hc now demos n text {d} path at =
      ap
        (λ (o : Option Demo).
          is_healthy
            (elim o as (λ _. Reply × ℕ) [
              | none ↦ (failed, now)
              | some c ↦ (reply_of (handle lib now (get_of hc.path) (c, unsent)).1, now)
            ]).0)
        at
      ∙ ap (λ p. is_healthy (reply_of (handle lib now (get_of p) (d, unsent)).1)) path
      ∙ probe-verdict now d

  verdicts-fleet :
      (hc : HealthChecker) (now : ℕ) (demos rest : List Demo) (bs : List Backend) (n : ℕ)
      → hc.path ≡ "/healthz"
      → ((k : ℕ) → get_elem? demos (n + k) ≡ get_elem? rest k)
      → length rest ≡ length bs
      → verdicts hc (fleet lib hc now demos) n bs ≡ map is_up rest
  verdicts-fleet hc now demos [] [] n path same long = refl
  verdicts-fleet hc now demos [] (b ∷ bs) n path same long = absurd (omega arith)
  verdicts-fleet hc now demos (d ∷ rest) [] n path same long = absurd (omega arith)
  verdicts-fleet hc now demos (d ∷ rest) (b ∷ bs) n path same long =
      let at : get_elem? demos n ≡ some d =
        let e : n + 0 ≡ n = omega arith in ap (get_elem? demos) (sym e) ∙ same 0 in
      let later : (k : ℕ) → get_elem? demos (n + 1 + k) ≡ get_elem? rest k =
        λ k. let e : n + 1 + k ≡ n + suc k = omega arith in ap (get_elem? demos) e ∙ same (suc k) in
      let fewer : length rest ≡ length bs = omega arith in
      rw (fleet-verdict hc now demos n _ path at)
        (ap (◌∷◌ (is_up d)) (verdicts-fleet hc now demos rest bs (n + 1) path later fewer))

  -- After a round over backends whose circuits are closed with at most three failures, each is routed
  -- to at any moment exactly when the demonstration server behind it is switched to healthy.
  pub round_follows_health :
      (hc : HealthChecker) (now later : ℕ) (demos : List Demo) (bs : List Backend)
      → hc.path ≡ "/healthz"
      → length demos ≡ length bs
      → All HasRoom bs
      → map (λ b. check_circuit_state b later) (check_all hc (fleet lib hc now demos) bs)
        ≡ map is_up demos
  round_follows_health hc now later demos bs path long room =
      check_all-verdicts hc (fleet lib hc now demos) later bs room
      ∙ verdicts-fleet hc now demos demos bs 0 path
          (λ k. let e : 0 + k ≡ k = omega arith in ap (get_elem? demos) e) long

  pub toggle-store :
      (now : ℕ) (d : Demo)
      → (handle lib now (get_of "/toggle-health") (d, unsent)).0 ≡ store_toggled d.healthy d
  unfolding handle follow serve_page handle_toggle_health
  toggle-store now d = rw toggle-route refl
