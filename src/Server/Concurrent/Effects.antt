-- ===== src/Server/Concurrent/Effects.antt =====
-- What a step of one request does to the backends and to what the request holds.
use poly_balance.Base.{
  ℕ, ◌+◌, ◌≡◌, refl, List, some, get_elem?, modify, ◌==◌, if◌then◌else◌, arith, ℤ,
}
use poly_balance.Backend.Float.{Float64}
use poly_balance.Backend.{
  Backend, record_latency, record_success, record_failure, set_circuit_half_open, inc_connections,
  dec_connections,
}
use poly_balance.Strategy.Hash.{Library}
use poly_balance.Server.Concurrent.{
  Phase, flying, copying, flown, closing, broken, Shared, Move, pick, give_up, refuse, admit,
  see_open, see_other, cooled, too_early, promote, enter, answer, fail, copy, break_off, clock,
  close, retry, exhaust, settled,
}

-- Whether a request counts as a connection of the backend at a position: from the opening of its
-- connection to the closing, and for ever if it broke off.
abbrev pub holds : ℕ → Phase → ℕ
holds i (flying left j start) = if i == j then 1 else 0
holds i (copying left j start code) = if i == j then 1 else 0
holds i (flown left j start code) = if i == j then 1 else 0
holds i (closing left j code) = if i == j then 1 else 0
holds i (broken j) = if i == j then 1 else 0
holds i _ = 0

abbrev pub Keeps : Phase → Phase → Type 0
Keeps p p' = (i : ℕ) → holds i p' ≡ holds i p

-- The four kinds of effect: on no backend; on one backend with its count of connections kept; the
-- opening and the closing of a connection.
pub data Effect (bs : List Backend) (p : Phase) : List Backend → Phase → Type 0 where
  quiet : {p' : Phase} → Keeps p p' → Effect bs p bs p'
  touched :
      {p' : Phase} (j : ℕ) (b b' : Backend)
      → get_elem? bs j ≡ some b
      → b'.active_connections ≡ b.active_connections
      → Keeps p p'
      → Effect bs p (modify bs j (λ _. b')) p'
  opened :
      {p' : Phase} (j : ℕ) (b : Backend)
      → get_elem? bs j ≡ some b
      → ((i : ℕ) → holds i p' ≡ holds i p + (if i == j then 1 else 0))
      → Effect bs p (modify bs j (λ _. inc_connections b)) p'
  closed :
      {p' : Phase} (j : ℕ) (b : Backend)
      → get_elem? bs j ≡ some b
      → ((i : ℕ) → holds i p ≡ holds i p' + (if i == j then 1 else 0))
      → Effect bs p (modify bs j (λ _. dec_connections b)) p'

latency-connections :
    (fl : Float64) (t : ℤ) (b : Backend)
    → (record_latency fl t b).active_connections ≡ b.active_connections
unfolding record_latency
latency-connections fl t b = ground arith

pub success-connections :
    (b : Backend) → (record_success b).active_connections ≡ b.active_connections
unfolding record_success
success-connections b = ground arith

pub failure-connections :
    (now : ℕ) (b : Backend) → (record_failure now b).active_connections ≡ b.active_connections
unfolding record_failure
failure-connections now b = ground arith

half_open-connections :
    (b : Backend) → (set_circuit_half_open b).active_connections ≡ b.active_connections
unfolding set_circuit_half_open
half_open-connections b = refl

pub Move-Effect :
    {fl : Float64} {lib : Library} {m m' : Shared} {o : ℕ} {p p' : Phase}
    → Move fl lib m o p m' p'
    → Effect m.backends p m'.backends p'
Move-Effect (pick old held choice) = quiet (λ i. refl)
Move-Effect (give_up old held choice) = quiet (λ i. refl)
Move-Effect (refuse b now at e) = quiet (λ i. refl)
Move-Effect (admit b now at e) = quiet (λ i. refl)
Move-Effect (see_open b at e) = quiet (λ i. refl)
Move-Effect (see_other b at e) = quiet (λ i. refl)
Move-Effect (cooled b now at e) = quiet (λ i. refl)
Move-Effect (too_early b now at e) = quiet (λ i. refl)
Move-Effect (promote b at) = touched _ b _ at (half_open-connections b) (λ i. refl)
Move-Effect (enter b start at) = opened _ b at (λ i. ground arith)
Move-Effect (answer b code at) = touched _ b _ at (success-connections b) (λ i. refl)
Move-Effect (fail b now at) = touched _ b _ at (failure-connections now b) (λ i. refl)
Move-Effect copy = quiet (λ i. refl)
Move-Effect break_off = quiet (λ i. refl)
Move-Effect {fl} (clock b end at) = touched _ b _ at (latency-connections fl _ b) (λ i. refl)
Move-Effect (close b at) = closed _ b at (λ i. ground arith)
Move-Effect (retry e l) = quiet (λ i. refl)
Move-Effect (exhaust e l) = quiet (λ i. refl)
Move-Effect (settled e) = quiet (λ i. refl)
