-- ===== src/Server/Writers.antt =====
-- What the client gets from server/http_server.go.
use poly_balance.Base.{
  ℕ, zero, suc, ◌+◌, ◌<◌, String, true, Bool-cases, inl, inr, some, Option-cases, ◌==◌, ◌≡◌, refl,
  ◌∙◌, ap, subst, get_elem?, get_elem?-some, modify, length, arith,
}
use poly_balance.Backend.Float.{Float64}
use poly_balance.Backend.{Backend, check_circuit_state}
use poly_balance.Strategy.Hash.{Library}
use poly_balance.Strategy.Range.{InRange, next_backend-InRange}
use poly_balance.Http.{Writer, unsent, write_header, write, http_error}
use poly_balance.Proxy.{Exchange, unreachable, serve, forward, finish}
use poly_balance.Proxy.Sinks.{serve-begins}
use poly_balance.Server.{
  Server, Recorder, Attempt, record_header, record_write, writer_sink, recorder_sink, choose,
  proxy_to, no_backend, serve_once, settle, serve_retrying, serve_http, is_retryable_method,
  is_retryable_status, max_retries,
}

-- The status that the client got is `code`.
abbrev pub Got : ℕ → Writer → Type 0
Got code w = w.sent ≡ some code

write_header-Got : (code c : ℕ) (w : Writer) → Got code w → Got code (write_header c w)
unfolding write_header
write_header-Got code c w g = ground arith

write-Got : (code : ℕ) (chunk : String) (w : Writer) → Got code w → Got code (write chunk w)
unfolding write
write-Got code chunk w g = ground arith

http_error-Got : (code c : ℕ) (m : String) (w : Writer) → Got code w → Got code (http_error m c w)
unfolding http_error
http_error-Got code c m w g = ground arith

-- The client got some status.
abbrev pub Answered : Writer → Type 0
Answered w = (code : ℕ) × Got code w

begun : (w : Writer) (c : ℕ) → Answered (write_header c w)
unfolding write_header
begun w c = elim (Option-cases w.sent) [
  | inl fresh ↦ (c, ground arith)
  | inr (old, e) ↦ (old, ground arith)
]

write-Answered : (chunk : String) (w : Writer) → Answered w → Answered (write chunk w)
write-Answered chunk w (code, g) = (code, write-Got code chunk w g)

http_error-Answered : (m : String) (c : ℕ) (w : Writer) → Answered (http_error m c w)
unfolding http_error
http_error-Answered m c w = write-Answered m (write_header c w) (begun w c)

module _ (fl : Float64) (lib : Library) (env : ℕ → Attempt) where
  -- A status that was sent before an attempt is the client's after it.
  module _ (code : ℕ) where
    settle-Got : (r : Recorder) → Got code r.writer → Got code (settle r)
    unfolding settle
    settle-Got r g = elim (Bool-cases (r.status == 0)) [
      | inl silent ↦ rw silent g
      | inr loud ↦ rw loud (write_header-Got code r.status r.writer g)
    ]

    proxied-Got :
        (n i : ℕ) (s : Server) (w : Writer)
        → Got code w
        → Got code
            (proxy_to fl lib env recorder_sink n i s (record { writer = w; status = 0 })).1.writer
    unfolding proxy_to
    proxied-Got n i s w g = elim (Option-cases (get_elem? s.backends i)) [
      | inl out ↦ rw (out, proxy_to) g
      | inr (b, at) ↦
          rw (at, proxy_to)
            (serve-begins recorder_sink (λ r. Got code r.writer)
              (λ chunk r h. unfold record_write in write-Got code chunk r.writer h) fl
              (env n).exchange b (record { writer = w; status = 0 })
              (λ c. unfold record_header in write_header-Got code c w g))
    ]

    retrying-Got :
        (left n last : ℕ) (s : Server) (w : Writer)
        → Got code w
        → Got code (serve_retrying fl lib env left n last s w).1
    unfolding serve_retrying no_backend
    retrying-Got zero n last s w g = http_error-Got code last _ w g
    retrying-Got (suc left) n last s w g = elim (Option-cases (choose fl lib env n s).1) [
      | inl nobody ↦ rw (nobody, serve_retrying) (http_error-Got code 503 _ w g)
      | inr (i, picked) ↦
          rw (picked, serve_retrying)
            (let s' = (choose fl lib env n s).0 in
              let q =
                proxy_to fl lib env recorder_sink n i s' (record { writer = w; status = 0 }) in
              let g' : Got code q.1.writer = proxied-Got n i s' w g in
              elim (Bool-cases (is_retryable_status q.1.status)) [
                | inl again ↦ rw again (retrying-Got left (n + 1) q.1.status q.0 q.1.writer g')
                | inr over ↦ rw over (settle-Got q.1 g')
              ])
    ]

  failed_attempt :
      (x : Exchange) (b : Backend)
      → check_circuit_state b x.gate_at ≡ true
      → x.outcome ≡ unreachable
      → let r = (serve recorder_sink fl x b (record { writer = unsent; status = 0 })).1 in
        (r.status ≡ 502) × Got 502 r.writer
  unfolding serve forward finish record_header record_write write
  failed_attempt x b up e = rw up (rw e (refl, refl))

  retry_first :
      (left n last : ℕ) (s : Server) (w : Writer) (i : ℕ) (b : Backend)
      → (choose fl lib env n s).1 ≡ some i
      → get_elem? (choose fl lib env n s).0.backends i ≡ some b
      → let (b', r) =
          serve recorder_sink fl (env n).exchange b (record { writer = w; status = 0 }) in
        let s' = (choose fl lib env n s).0 in
        is_retryable_status r.status ≡ true
        → serve_retrying fl lib env (suc left) n last s w
          ≡ serve_retrying fl lib env left
              (n + 1)
              r.status
              (record s' { backends = modify s'.backends i (λ _. b') })
              r.writer
  unfolding serve_retrying proxy_to
  retry_first left n last s w i b picked at again =
      rw (picked, serve_retrying) (rw (at, proxy_to) (rw again))

  -- A request that may be retried and whose first attempt does not reach its backend is answered
  -- with 502 to the client, whatever the further attempts meet: the error page of the first attempt
  -- has already been sent.
  pub first_failure_decides :
      (method : String) (s : Server) (i : ℕ) (b : Backend)
      → is_retryable_method method ≡ true
      → (choose fl lib env 0 s).1 ≡ some i
      → get_elem? s.backends i ≡ some b
      → check_circuit_state b (env 0).exchange.gate_at ≡ true
      → (env 0).exchange.outcome ≡ unreachable
      → (serve_http fl lib env method s unsent).1.sent ≡ some 502
  unfolding serve_http choose
  first_failure_decides method s i b retryable picked at up e =
      let x = (env 0).exchange in
      let (status, got) = failed_attempt x b up e in
      let again : is_retryable_status
            (serve recorder_sink fl x b (record { writer = unsent; status = 0 })).1.status
          ≡ true =
        rw status (unfold is_retryable_status in refl) in
      rw (retryable, serve_http)
        (ap (λ p. p.1.sent) (retry_first 2 0 0 s unsent i b picked at again)
          ∙ retrying-Got 502 2 1 _ _ _ got)

  choose-inside :
      (n : ℕ) (s : Server) (i : ℕ)
      → (choose fl lib env n s).1 ≡ some i
      → i < length (choose fl lib env n s).0.backends
  unfolding choose
  choose-inside n s i picked =
      subst (InRange (length s.backends)) picked
        (next_backend-InRange lib s.controller.current s.backends (env n).pick_at)

  once-Answered : (s : Server) (w : Writer) → Answered (serve_once fl lib env s w).1
  unfolding serve_once no_backend proxy_to
  once-Answered s w = elim (Option-cases (choose fl lib env 0 s).1) [
    | inl nobody ↦ rw (nobody, serve_once) (http_error-Answered _ 503 w)
    | inr (i, picked) ↦
        let (b, at) =
          get_elem?-some (choose fl lib env 0 s).0.backends i (choose-inside 0 s i picked) in
        rw (picked, serve_once)
          (rw (at, proxy_to)
            (serve-begins writer_sink Answered write-Answered fl (env 0).exchange b w (begun w)))
  ]

  settle-Answered : (r : Recorder) → Answered r.writer → Answered (settle r)
  settle-Answered r (code, g) = (code, settle-Got code r g)

  retrying-Answered :
      (left n last : ℕ) (s : Server) (w : Writer)
      → Answered (serve_retrying fl lib env left n last s w).1
  unfolding serve_retrying no_backend proxy_to
  retrying-Answered zero n last s w = http_error-Answered _ last w
  retrying-Answered (suc left) n last s w = elim (Option-cases (choose fl lib env n s).1) [
    | inl nobody ↦ rw (nobody, serve_retrying) (http_error-Answered _ 503 w)
    | inr (i, picked) ↦
        let s' = (choose fl lib env n s).0 in
        let (b, at) = get_elem?-some s'.backends i (choose-inside n s i picked) in
        let r = (serve recorder_sink fl (env n).exchange b (record { writer = w; status = 0 })).1 in
        let begun' : Answered r.writer =
          serve-begins recorder_sink (λ q. Answered q.writer)
            (λ chunk q h. unfold record_write in write-Answered chunk q.writer h) fl
            (env n).exchange b (record { writer = w; status = 0 })
            (λ c. unfold record_header in begun w c) in
        rw (picked, serve_retrying)
          (rw (at, proxy_to)
            (elim (Bool-cases (is_retryable_status r.status)) [
              | inl again ↦ rw again (retrying-Answered left (n + 1) r.status _ r.writer)
              | inr over ↦ rw over (settle-Answered r begun')
            ]))
  ]

  -- Every request gets an answer: whatever strategy is in use and whatever the backends do, the
  -- client has been sent a status when the handler returns.
  pub serve_http-Answered :
      (method : String) (s : Server) (w : Writer)
      → (code : ℕ) × ((serve_http fl lib env method s w).1.sent ≡ some code)
  unfolding serve_http
  serve_http-Answered method s w = elim (Bool-cases (is_retryable_method method)) [
    | inl retryable ↦ rw (retryable, serve_http) (retrying-Answered (suc max_retries) 0 0 s w)
    | inr single ↦ rw (single, serve_http) (once-Answered s w)
  ]
