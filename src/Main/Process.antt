-- ===== src/Main/Process.antt =====
-- cmd/main.go: the process from the start of its listener on.
-- `listen` is the head of the listener's goroutine; what follows is told by the events that end it.
-- The server that listens is the library's, and so is the delivery of signals.
pub mod Checker
use poly_balance.Base.{◌≡◌, refl, Bool, true, false, none, some, List, [], ◌∷◌, if◌then◌else◌}
use poly_balance.Middleware.Tls.{TlsConfig, Files, Library, World, Settings, get_tls_config}

-- How the goroutine goes on: plainly, with a certificate, or not at all.
pub data Listening (Pair : Type 0) : Type 0 where
  plain no_certificate : Listening Pair
  secured : Settings Pair → Listening Pair

unfoldable pub listen :
    {Key Pair : Type 0} → Library Key Pair → TlsConfig → World Key → Files → Files × Listening Pair
listen lib tc world fs =
    let (fs', loaded) = get_tls_config lib tc world fs in
    if tc.enabled
    then (fs', elim loaded [ none ↦ no_certificate | some settings ↦ secured settings ])
    else (fs, plain)

-- Whether the listener serves, the context of the health checker is not done, and main has not
-- returned.
pub record Process : Type 0 where
  pub serving : Bool
  pub checking : Bool
  pub running : Bool

-- The listener returns an error, or SIGINT or SIGTERM comes.
pub data Occurrence : Type 0 where
  listener_ends interrupted : Occurrence

unfoldable pub launched : {Pair : Type 0} → Listening Pair → Process
launched no_certificate = record { serving = false; checking = false; running = true }
launched _ = record { serving = true; checking = true; running = true }

-- The end of the listener cancels the context; a signal lets main return.
unfoldable pub occur : Occurrence → Process → Process
occur listener_ends p = if p.serving then record p { serving = false; checking = false } else p
occur interrupted p = record { serving = false; checking = false; running = false }

unfoldable pub run_process : List Occurrence → Process → Process
unfolding occur
run_process [] p = p
run_process (o ∷ os) p = run_process os (occur o p)

-- No signal comes.
abbrev pub Uninterrupted : List Occurrence → Type 0
Uninterrupted [] = Unit
Uninterrupted (listener_ends ∷ os) = Uninterrupted os
Uninterrupted (interrupted ∷ os) = ⊥

-- Whether nobody listens in the end.
abbrev pub is_deaf : {Pair : Type 0} → Listening Pair → List Occurrence → Bool
is_deaf no_certificate os = true
is_deaf l [] = false
is_deaf l (o ∷ os) = true

-- Up, with neither a listener nor a health checker.
abbrev pub idle_process : Process
idle_process = record { serving = false; checking = false; running = true }

pub stays_idle :
    (os : List Occurrence) → Uninterrupted os → run_process os idle_process ≡ idle_process
unfolding run_process
stays_idle [] quiet = refl
stays_idle (listener_ends ∷ os) quiet = stays_idle os quiet
stays_idle (interrupted ∷ os) quiet = absurd quiet

-- Once the certificate does not load, or the listener has ended, the process stays up until a signal
-- comes, with neither a listener nor a health checker.
pub deaf-idle :
    {Pair : Type 0} (l : Listening Pair) (os : List Occurrence)
    → Uninterrupted os
    → is_deaf l os ≡ true
    → run_process os (launched l) ≡ idle_process
unfolding run_process launched
deaf-idle no_certificate os quiet deaf = stays_idle os quiet
deaf-idle plain [] quiet deaf = cc
deaf-idle plain (listener_ends ∷ os) quiet deaf = stays_idle os quiet
deaf-idle plain (interrupted ∷ os) quiet deaf = absurd quiet
deaf-idle (secured t) [] quiet deaf = cc
deaf-idle (secured t) (listener_ends ∷ os) quiet deaf = stays_idle os quiet
deaf-idle (secured t) (interrupted ∷ os) quiet deaf = absurd quiet
