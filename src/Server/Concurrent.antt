-- ===== src/Server/Concurrent.antt =====
-- server/http_server.go and proxy/reverse_proxy.go with many requests at once.
-- A request is a goroutine that stands before one of its shared accesses. A method under a backend's
-- mutex is one atomic step; a pick is one step whose reads of the backends are of any moment (`Choice`).
-- The health checker and the change of the strategy step between them. The clock of each step is any
-- number. Two ends of a request are told apart: the handler returns, or it is unwound by the panic
-- with which the library's ReverseProxy ends when a body breaks off after its header.
pub mod Effects
pub mod Connections
pub mod Leaks
pub mod Potential
pub mod Places
pub mod Progress
pub mod Schedule
pub mod Sequential
mod Statuses
mod Tests
use poly_balance.Base.{
  ℕ, suc, Bool, true, false, ◌≡◌, ◌++◌, ◌∷◌, [], Option, none, some, List, String, get_elem?,
  modify, sub_ℕ, length, if◌then◌else◌,
}
use poly_balance.Backend.Float.{Float64}
use poly_balance.Backend.{
  Backend, Op, set_alive_op, success_op, failure_op, apply, is_open, get_circuit_state,
  check_circuit_state, can_attempt_half_open, set_circuit_half_open, inc_connections,
  dec_connections, record_latency, record_success, record_failure,
}
use poly_balance.Strategy.{Strategy, next_backend}
use poly_balance.Strategy.Choice.{Choice}
use poly_balance.Strategy.Hash.{Library}
use poly_balance.Server.{is_retryable_method, is_retryable_status, max_retries}

-- Where a request stands, with its attempts left after the present one, the position of its backend,
-- the start of its round trip and the status of its attempt, as far as they are live.
pub data Phase : Type 0 where
  choosing : ℕ → Phase
  picked gated checking promoting entering : ℕ → ℕ → Phase
  flying : ℕ → ℕ → ℕ → Phase
  copying flown : ℕ → ℕ → ℕ → ℕ → Phase
  closing : ℕ → ℕ → ℕ → Phase
  attempted : ℕ → ℕ → Phase
  finished : Phase
  broken : ℕ → Phase

-- What the requests share: the backends, and every strategy object that was ever in use, with the
-- position of the one that the controller hands out now.
pub record Shared : Type 0 where
  pub backends : List Backend
  pub strategies : List Strategy
  pub current : ℕ

-- The backend at a position, after a method.
abbrev pub write_back : Shared → ℕ → Backend → Shared
write_back m i b = record m { backends = modify m.backends i (λ _. b) }

-- The strategy object at a position, after a pick.
abbrev pub keep_strategy : Shared → ℕ → Strategy → Shared
keep_strategy m k strategy = record m { strategies = modify m.strategies k (λ _. strategy) }

module _ (fl : Float64) (lib : Library) where
  -- The steps of a request with the strategy object at position `held`.
  pub data Move (m : Shared) (held : ℕ) : Phase → Shared → Phase → Type 0 where
    pick :
        {left i : ℕ} {kept : Strategy} (old : Strategy)
        → get_elem? m.strategies held ≡ some old
        → Choice lib old m.backends (some i) kept
        → Move m held (choosing left) (keep_strategy m held kept) (picked left i)
    give_up :
        {left : ℕ} {kept : Strategy} (old : Strategy)
        → get_elem? m.strategies held ≡ some old
        → Choice lib old m.backends none kept
        → Move m held (choosing left) (keep_strategy m held kept) finished
    refuse :
        {left i : ℕ} (b : Backend) (now : ℕ)
        → get_elem? m.backends i ≡ some b
        → check_circuit_state b now ≡ false
        → Move m held (picked left i) m (attempted left 503)
    admit :
        {left i : ℕ} (b : Backend) (now : ℕ)
        → get_elem? m.backends i ≡ some b
        → check_circuit_state b now ≡ true
        → Move m held (picked left i) m (gated left i)
    see_open :
        {left i : ℕ} (b : Backend)
        → get_elem? m.backends i ≡ some b
        → is_open (get_circuit_state b) ≡ true
        → Move m held (gated left i) m (checking left i)
    see_other :
        {left i : ℕ} (b : Backend)
        → get_elem? m.backends i ≡ some b
        → is_open (get_circuit_state b) ≡ false
        → Move m held (gated left i) m (entering left i)
    cooled :
        {left i : ℕ} (b : Backend) (now : ℕ)
        → get_elem? m.backends i ≡ some b
        → can_attempt_half_open b now ≡ true
        → Move m held (checking left i) m (promoting left i)
    too_early :
        {left i : ℕ} (b : Backend) (now : ℕ)
        → get_elem? m.backends i ≡ some b
        → can_attempt_half_open b now ≡ false
        → Move m held (checking left i) m (entering left i)
    promote :
        {left i : ℕ} (b : Backend)
        → get_elem? m.backends i ≡ some b
        → Move m held
            (promoting left i)
            (write_back m i (set_circuit_half_open b))
            (entering left i)
    enter :
        {left i : ℕ} (b : Backend) (start : ℕ)
        → get_elem? m.backends i ≡ some b
        → Move m held (entering left i) (write_back m i (inc_connections b)) (flying left i start)
    answer :
        {left i start : ℕ} (b : Backend) (code : ℕ)
        → get_elem? m.backends i ≡ some b
        → Move m held
            (flying left i start)
            (write_back m i (record_success b))
            (copying left i start code)
    fail :
        {left i start : ℕ} (b : Backend) (now : ℕ)
        → get_elem? m.backends i ≡ some b
        → Move m held
            (flying left i start)
            (write_back m i (record_failure now b))
            (flown left i start 502)
    copy :
        {left i start code : ℕ}
        → Move m held (copying left i start code) m (flown left i start code)
    break_off : {left i start code : ℕ} → Move m held (copying left i start code) m (broken i)
    clock :
        {left i start code : ℕ} (b : Backend) (end : ℕ)
        → get_elem? m.backends i ≡ some b
        → Move m held
            (flown left i start code)
            (write_back m i (record_latency fl (sub_ℕ end start) b))
            (closing left i code)
    close :
        {left i code : ℕ} (b : Backend)
        → get_elem? m.backends i ≡ some b
        → Move m held
            (closing left i code)
            (write_back m i (dec_connections b))
            (attempted left code)
    retry :
        {left rest code : ℕ}
        → is_retryable_status code ≡ true
        → left ≡ suc rest
        → Move m held (attempted left code) m (choosing rest)
    exhaust :
        {left code : ℕ}
        → is_retryable_status code ≡ true
        → left ≡ 0
        → Move m held (attempted left code) m finished
    settled :
        {left code : ℕ}
        → is_retryable_status code ≡ false
        → Move m held (attempted left code) m finished

-- The methods that a health check calls.
unfoldable pub is_verdict : Op → Bool
is_verdict (set_alive_op alive) = true
is_verdict success_op = true
is_verdict (failure_op now) = true
is_verdict _ = false

-- A request with the strategy object that it took from the controller when it arrived, and keeps
-- for all its attempts.
pub record Flight : Type 0 where
  pub held : ℕ
  pub phase : Phase

-- The whole: what is shared, and every request that has arrived, those that are over included.
pub record World : Type 0 where
  pub shared : Shared
  pub requests : List Flight

-- A request's start, by its method: one attempt, or three.
unfoldable pub first_phase : String → Phase
first_phase method = choosing (if is_retryable_method method then max_retries else 0)

abbrev pub arriving : Shared → String → Flight
arriving m method = record { held = m.current; phase = first_phase method }

-- The controller's change of the strategy: a new object.
abbrev pub install : Shared → Strategy → Shared
install m strategy = record m {
  strategies = m.strategies ++ (strategy ∷ []);
  current = length m.strategies;
}

module _ (fl : Float64) (lib : Library) where
  pub data Step (s : World) : World → Type 0 where
    turn :
        (k : ℕ) {r : Flight} {p : Phase} {m : Shared}
        → get_elem? s.requests k ≡ some r
        → Move fl lib s.shared r.held r.phase m p
        → Step s
            (record { shared = m; requests = modify s.requests k (λ _. record r { phase = p }) })
    arrive :
        (method : String)
        → Step s (record s { requests = s.requests ++ (arriving s.shared method ∷ []) })
    check :
        (i : ℕ) (b : Backend) (o : Op)
        → get_elem? s.shared.backends i ≡ some b
        → is_verdict o ≡ true
        → Step s (record s { shared = write_back s.shared i (apply fl o b) })
    switch : (strategy : Strategy) → Step s (record s { shared = install s.shared strategy })

  pub data Reach (s : World) : World → Type 0 where
    here : Reach s s
    later : {t u : World} → Reach s t → Step t u → Reach s u
