-- ===== src/Server/Laws.antt =====
-- What a request to server/http_server.go does to the backends.
use poly_balance.Base.{
  ℕ, zero, suc, ◌+◌, ◌-◌, ◌≤◌, String, Bool-cases, inl, inr, some, Option-cases, List, ◌≡◌, refl,
  sym, ◌∙◌, ap, subst, get_elem?, modify, map, All, All-get, All-modify_at, map-modify_at, arith,
  if◌then◌else◌, ℤ, pos, ◌≤ℤ◌, max_int64,
}
use poly_balance.Backend.Float.{Float64}
use poly_balance.Backend.{Backend, check_circuit_state, run}
use poly_balance.Backend.Trace.{IsValid, run-IsValid_of}
use poly_balance.Strategy.Hash.{Library}
use poly_balance.Http.{Writer}
use poly_balance.Proxy.{Sink, Exchange}
use poly_balance.Proxy.Laws.{pass_ops, serve-run, pass-connections}
use poly_balance.Server.{
  Server, Attempt, writer_sink, recorder_sink, choose, proxy_to, serve_once, serve_retrying,
  serve_http, is_retryable_method, is_retryable_status,
}

-- What one pass through the proxy makes of a backend.
abbrev pub after_pass : Float64 → Exchange → Backend → Backend
after_pass fl x b = if check_circuit_state b x.gate_at then run fl (pass_ops x b) b else b

-- `cs` comes from `bs` by `n` passes, each at some backend.
pub data Served (fl : Float64) (bs : List Backend) : ℕ → List Backend → Type 0 where
  start : {n : ℕ} → n ≡ 0 → Served fl bs n bs
  pass :
      {n : ℕ} {cs ds : List Backend} (i : ℕ) (x : Exchange) (b : Backend)
      → Served fl bs n cs
      → get_elem? cs i ≡ some b
      → ds ≡ modify cs i (λ _. after_pass fl x b)
      → Served fl bs (suc n) ds

module _ (fl : Float64) (lib : Library) (env : ℕ → Attempt) (bs : List Backend) where
  proxied-Served :
      {W : Type 0} (sink : Sink W) (n i k : ℕ) (s : Server) (w : W)
      → Served fl bs k s.backends
      → (m : ℕ) × (m ≤ k + 1) × Served fl bs m (proxy_to fl lib env sink n i s w).0.backends
  unfolding proxy_to
  proxied-Served sink n i k s w done = elim (Option-cases (get_elem? s.backends i)) [
    | inl out ↦ (k, omega arith, rw (out, proxy_to) done)
    | inr (b, at) ↦ (
      suc k,
      omega arith,
      rw (at, proxy_to)
          (pass i (env n).exchange b done at
            (ap (λ c. modify s.backends i (λ _. c)) (serve-run sink fl (env n).exchange b w))),
    )
  ]

  chosen-Served :
      (n k : ℕ) (s : Server)
      → Served fl bs k s.backends
      → Served fl bs k (choose fl lib env n s).0.backends
  unfolding choose
  chosen-Served n k s done = done

  retrying-Served :
      (left n last k : ℕ) (s : Server) (w : Writer)
      → Served fl bs k s.backends
      → (m : ℕ) × (m ≤ k + left)
        × Served fl bs m (serve_retrying fl lib env left n last s w).0.backends
  unfolding serve_retrying
  retrying-Served zero n last k s w done = (k, omega arith, done)
  retrying-Served (suc left) n last k s w done = elim (Option-cases (choose fl lib env n s).1) [
    | inl nobody ↦ (k, omega arith, rw (nobody, serve_retrying) (chosen-Served n k s done))
    | inr (i, picked) ↦
        let s' = (choose fl lib env n s).0 in
        let q = proxy_to fl lib env recorder_sink n i s' (record { writer = w; status = 0 }) in
        let (j, le, once) =
          proxied-Served recorder_sink n i k s' (record { writer = w; status = 0 })
            (chosen-Served n k s done) in
        elim (Bool-cases (is_retryable_status q.1.status)) [
          | inl again ↦
              let (m, le', all) = retrying-Served left (n + 1) q.1.status j q.0 q.1.writer once in
              (m, omega arith, rw (picked, serve_retrying) (rw again all))
          | inr over ↦ (j, omega arith, rw (picked, serve_retrying) (rw over once))
        ]
  ]

  once-Served :
      (s : Server) (w : Writer)
      → Served fl bs 0 s.backends
      → (m : ℕ) × (m ≤ 1) × Served fl bs m (serve_once fl lib env s w).0.backends
  unfolding serve_once
  once-Served s w done = elim (Option-cases (choose fl lib env 0 s).1) [
    | inl nobody ↦ (0, omega arith, rw (nobody, serve_once) (chosen-Served 0 0 s done))
    | inr (i, picked) ↦
        let (m, le, once) =
          proxied-Served writer_sink 0 i 0 (choose fl lib env 0 s).0 w (chosen-Served 0 0 s done) in
        (m, omega arith, rw (picked, serve_once) once)
  ]

-- A request passes through the proxy at most three times, and at most once if its method is not
-- GET, HEAD or OPTIONS; the backends change by these passes only, each at one position.
pub serve_http-Served :
    (fl : Float64) (lib : Library) (env : ℕ → Attempt) (method : String) (s : Server) (w : Writer)
    → (m : ℕ) × (m ≤ (if is_retryable_method method then 3 else 1))
      × Served fl s.backends m (serve_http fl lib env method s w).0.backends
unfolding serve_http
serve_http-Served fl lib env method s w = elim (Bool-cases (is_retryable_method method)) [
  | inl retryable ↦
      let (m, le, served) = retrying-Served fl lib env s.backends 3 0 0 0 s w (start refl) in
      (m, rw retryable (omega arith), rw (retryable, serve_http) served)
  | inr single ↦
      let (m, le, served) = once-Served fl lib env s.backends s w (start refl) in
      (m, rw single le, rw (single, serve_http) served)
]

-- A property of backends that every pass keeps.
Served-All :
    (fl : Float64) (P : Backend → Type 0) (bs : List Backend) {n : ℕ} {cs : List Backend}
    → ((x : Exchange) (b : Backend) → P b → P (after_pass fl x b))
    → Served fl bs n cs
    → All P bs
    → All P cs
Served-All fl P bs keeps (start e) all = all
Served-All fl P bs keeps (pass {cs = cs} i x b before at e) all = rw e (
    All-modify_at P cs i b (after_pass fl x b) at (keeps x b) (Served-All fl P bs keeps before all))

after_pass-IsValid :
    (fl : Float64) (x : Exchange) (b : Backend) → IsValid b → IsValid (after_pass fl x b)
after_pass-IsValid fl x b v = elim (Bool-cases (check_circuit_state b x.gate_at)) [
  | inl up ↦ rw up (run-IsValid_of fl (pass_ops x b) b v)
  | inr down ↦ rw down v
]

-- A request keeps the invariant of every backend, whatever strategy picks them and whatever the
-- attempts meet.
pub serve_http-IsValid :
    (fl : Float64) (lib : Library) (env : ℕ → Attempt) (method : String) (s : Server) (w : Writer)
    → All IsValid s.backends
    → All IsValid (serve_http fl lib env method s w).0.backends
serve_http-IsValid fl lib env method s w v =
    Served-All fl IsValid s.backends (after_pass-IsValid fl)
      (serve_http-Served fl lib env method s w).2 v

-- A connection count that one more request cannot overflow.
abbrev pub HasSlot : Backend → Type 0
HasSlot b = (pos 0 ≤ℤ b.active_connections) × (b.active_connections ≤ℤ pos (max_int64 - 1))

abbrev pub connections : List Backend → List ℤ
connections = map (λ b. b.active_connections)

after_pass-connections :
    (fl : Float64) (x : Exchange) (b : Backend)
    → HasSlot b
    → (after_pass fl x b).active_connections ≡ b.active_connections
after_pass-connections fl x b h = elim (Bool-cases (check_circuit_state b x.gate_at)) [
  | inl up ↦ rw up (pass-connections writer_sink fl x b h.0 h.1)
  | inr down ↦ rw down
]

pub Served-connections :
    (fl : Float64) (bs : List Backend) {n : ℕ} {cs : List Backend}
    → Served fl bs n cs
    → All HasSlot bs
    → All HasSlot cs × (connections cs ≡ connections bs)
Served-connections fl bs (start e) h = (h, refl)
Served-connections fl bs (pass {cs = cs} i x b before at e) h =
    let (slots, same) = Served-connections fl bs before h in
    let back = after_pass-connections fl x b (All-get HasSlot cs i slots at) in
    rw e (
      All-modify_at HasSlot cs i b (after_pass fl x b) at
          (subst (λ z. (pos 0 ≤ℤ z) × (z ≤ℤ pos (max_int64 - 1))) (sym back)) slots,
      map-modify_at (λ c. c.active_connections) cs i b (after_pass fl x b) at back ∙ same,
    )

-- When a request is over, every backend has the connection count that it had before: no attempt,
-- successful or not, leaks a connection or gives one back twice.
pub serve_http-connections :
    (fl : Float64) (lib : Library) (env : ℕ → Attempt) (method : String) (s : Server) (w : Writer)
    → All HasSlot s.backends
    → connections (serve_http fl lib env method s w).0.backends ≡ connections s.backends
serve_http-connections fl lib env method s w h =
    (Served-connections fl s.backends (serve_http-Served fl lib env method s w).2 h).1
