-- ===== src/Server/Delivery.antt =====
-- server/http_server.go and proxy/reverse_proxy.go: what becomes of a backend's answer.
use mathlib.Core.List.{append-nil, append_assoc}
use poly_balance.Base.{
  ℕ, suc, ◌≤◌, ◌≡◌, refl, sym, ap, ◌∙◌, true, false, Bool-cases, inl, inr, none, some, String, List,
  [], ◌∷◌, ◌++◌, ◌==◌, pos, get_elem?, modify, get_elem?-modify_same, arith,
}
use poly_balance.Backend.Float.{Float64}
use poly_balance.Backend.{Backend, circuit_closed, check_circuit_state}
use poly_balance.Strategy.Hash.{Library}
use poly_balance.Http.{Writer, unsent, write_header, write}
use poly_balance.Proxy.{Sink, Exchange, answered, serve, forward, finish, copy_body}
use poly_balance.Proxy.Laws.{serve-answered}
use poly_balance.Server.{
  Server, Recorder, Attempt, record_header, record_write, writer_sink, recorder_sink, choose,
  proxy_to, serve_once, serve_retrying, serve_http, settle, is_retryable_method,
  is_retryable_status, max_retries,
}

-- A writer that has been sent a status and a body.
abbrev sent_with : ℕ → List String → Writer
sent_with status body = record { sent = some status; location = none; body = body }

copy_body-writer :
    (status : ℕ) (body chunks : List String)
    → copy_body writer_sink chunks (sent_with status body) ≡ sent_with status (body ++ chunks)
unfolding copy_body write write_header
copy_body-writer status body [] = ap (sent_with status) (sym (append-nil body))
copy_body-writer status body (chunk ∷ chunks) =
    copy_body-writer status (body ++ (chunk ∷ [])) chunks
    ∙ ap (sent_with status) (append_assoc body (chunk ∷ []) chunks)

abbrev recorded : ℕ → List String → Recorder
recorded status body = record { writer = sent_with status body; status = status }

copy_body-recorder :
    (status : ℕ) (body chunks : List String)
    → (status == 0) ≡ false
    → copy_body recorder_sink chunks (recorded status body) ≡ recorded status (body ++ chunks)
unfolding copy_body record_write write write_header
copy_body-recorder status body [] h = ap (recorded status) (sym (append-nil body))
copy_body-recorder status body (chunk ∷ chunks) h =
    let kept : record_write chunk (recorded status body) ≡ recorded status (body ++ (chunk ∷ [])) =
      rw h refl in
    ap (copy_body recorder_sink chunks) kept
    ∙ copy_body-recorder status (body ++ (chunk ∷ [])) chunks h
    ∙ ap (recorded status) (append_assoc body (chunk ∷ []) chunks)

module _ (fl : Float64) (x : Exchange) (b : Backend) (status : ℕ) (chunks : List String)
    (up : check_circuit_state b x.gate_at ≡ true) (e : x.outcome ≡ answered status chunks) where
  passed :
      {W : Type 0} (sink : Sink W) (w : W)
      → (serve sink fl x b w).1 ≡ copy_body sink chunks (sink.put_header status w)
  unfolding serve finish forward
  passed sink w = rw up (rw e refl)

  pub passed_writer : (serve writer_sink fl x b unsent).1 ≡ sent_with status chunks
  unfolding write_header
  passed_writer = passed writer_sink unsent ∙ copy_body-writer status [] chunks

  pub passed_recorder :
      (status == 0) ≡ false
      → (serve recorder_sink fl x b (record { writer = unsent; status = 0 })).1
        ≡ recorded status chunks
  unfolding record_header write_header
  passed_recorder h =
      passed recorder_sink (record { writer = unsent; status = 0 })
      ∙ copy_body-recorder status [] chunks h

-- The client has got the status and the body, and the backend at the position counts as healthy.
abbrev pub Delivered : ℕ → List String → ℕ → Server × Writer → Type 0
Delivered status chunks i (s, w) =
    (w.sent ≡ some status)
    × (w.body ≡ chunks)
    × (c : Backend) × (get_elem? s.backends i ≡ some c)
    × (c.circuit ≡ circuit_closed)
    × (c.failure_count ≡ pos 0)

settle-recorded :
    (status : ℕ) (chunks : List String)
    → (status == 0) ≡ false
    → settle (recorded status chunks) ≡ sent_with status chunks
unfolding settle write_header
settle-recorded status chunks h = rw h refl

module _ (fl : Float64) (lib : Library) (env : ℕ → Attempt) (s : Server) (i : ℕ) (b : Backend)
    (status : ℕ) (chunks : List String) (picked : (choose fl lib env 0 s).1 ≡ some i)
    (at : get_elem? (choose fl lib env 0 s).0.backends i ≡ some b)
    (up : check_circuit_state b (env 0).exchange.gate_at ≡ true)
    (e : (env 0).exchange.outcome ≡ answered status chunks) where
  -- The server and a writer after the pass.
  passed-Delivered :
      {W : Type 0} (sink : Sink W) (w : W) (client : Writer)
      → client ≡ sent_with status chunks
      → Delivered status chunks i (
        record (choose fl lib env 0 s).0 {
          backends =
              modify
                (choose fl lib env 0 s).0.backends
                i
                (λ _. (serve sink fl (env 0).exchange b w).0);
        },
        client,
      )
  passed-Delivered sink w client got =
      let (closed, counted) = serve-answered sink fl (env 0).exchange b w status chunks up e in
      (
        ap (λ (v : Writer). v.sent) got,
        ap (λ (v : Writer). v.body) got,
        _,
        get_elem?-modify_same (choose fl lib env 0 s).0.backends i _ at,
        closed,
        counted,
      )

  once-Delivered : Delivered status chunks i (serve_once fl lib env s unsent)
  unfolding serve_once proxy_to
  once-Delivered =
      rw (picked, serve_once)
        (rw (at, proxy_to)
          (passed-Delivered writer_sink unsent _
            (passed_writer fl (env 0).exchange b status chunks up e)))

  retrying-Delivered :
      (status == 0) ≡ false
      → is_retryable_status status ≡ false
      → Delivered status chunks i (serve_retrying fl lib env (suc max_retries) 0 0 s unsent)
  unfolding serve_retrying proxy_to
  retrying-Delivered nonzero final =
      let w : Recorder = record { writer = unsent; status = 0 } in
      let got = passed_recorder fl (env 0).exchange b status chunks up e nonzero in
      let over : is_retryable_status (serve recorder_sink fl (env 0).exchange b w).1.status
          ≡ false =
        ap (λ (r : Recorder). is_retryable_status r.status) got ∙ final in
      rw (picked, serve_retrying)
        (rw (at, proxy_to)
          (rw over (
            passed-Delivered recorder_sink w _
              (ap settle got ∙ settle-recorded status chunks nonzero))))

-- When the first pick is a backend that the gate lets requests through to, and it answers with a status
-- that is not zero and not to be retried, the client gets this status and this body, for any method;
-- and the backend's circuit is closed after it, with no failure counted.
pub first_success_delivers :
    (fl : Float64) (lib : Library) (env : ℕ → Attempt) (method : String) (s : Server) (i : ℕ)
    (b : Backend) (status : ℕ) (chunks : List String)
    → (choose fl lib env 0 s).1 ≡ some i
    → get_elem? s.backends i ≡ some b
    → check_circuit_state b (env 0).exchange.gate_at ≡ true
    → (env 0).exchange.outcome ≡ answered status chunks
    → 1 ≤ status
    → is_retryable_status status ≡ false
    → Delivered status chunks i (serve_http fl lib env method s unsent)
unfolding serve_http choose
first_success_delivers fl lib env method s i b status chunks picked at up e given final =
    let nonzero : (status == 0) ≡ false = ground arith in
    elim (Bool-cases (is_retryable_method method)) [
      | inl again ↦
          rw again (retrying-Delivered fl lib env s i b status chunks picked at up e nonzero final)
      | inr once ↦ rw once (once-Delivered fl lib env s i b status chunks picked at up e)
    ]
