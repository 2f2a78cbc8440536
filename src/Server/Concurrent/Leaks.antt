-- ===== src/Server/Concurrent/Leaks.antt =====
-- backend/backend.go's connection counts when every request is over.
use poly_balance.Base.{
  ℕ, ◌≤◌, ◌≡◌, refl, ap, ◌∙◌, List, [], ◌∷◌, some, get_elem?, length, total, ◌==◌, if◌then◌else◌,
  arith, pos, max_int64, All,
}
use poly_balance.Backend.Float.{Float64}
use poly_balance.Backend.{Backend}
use poly_balance.Strategy.Hash.{Library}
use poly_balance.Server.Concurrent.{Phase, Flight, finished, broken, World, Reach}
use poly_balance.Server.Concurrent.Effects.{holds}
use poly_balance.Server.Concurrent.Connections.{connected, Counted, connections-Counted}

-- No request is under way: each is over, by its handler's return or by a panic.
abbrev pub Over : Phase → Type 0
Over finished = Unit
Over (broken i) = Unit
Over _ = ⊥

-- The request is over.
abbrev pub IsOver : Flight → Type 0
IsOver r = Over r.phase

abbrev pub breaks : ℕ → Phase → ℕ
breaks i (broken j) = if i == j then 1 else 0
breaks i _ = 0

-- The requests whose response from the backend at a position broke off.
abbrev pub broken_off : ℕ → List Flight → ℕ
broken_off i requests = total (λ r. breaks i r.phase) requests

Over-holds : (i : ℕ) (p : Phase) → Over p → holds i p ≡ breaks i p
Over-holds i finished o = refl
Over-holds i (broken j) o = refl
Over-holds i p o = absurd o

over-connected : (i : ℕ) (rs : List Flight) → All IsOver rs → connected i rs ≡ broken_off i rs
over-connected i [] o = refl
over-connected i (r ∷ rs) o = omega (arith, Over-holds i r.phase o.0, over-connected i rs o.1)

-- If the counts were right at the start and at most 2^63 - 1 requests have arrived, then, when every
-- request is over, a backend's count of active connections is the number of responses from it that
-- broke off: each of these has leaked a connection for good.
pub broken_leaks :
    {fl : Float64} {lib : Library} {s t : World}
    → Reach fl lib s t
    → length t.requests ≤ max_int64
    → Counted s.shared.backends s.requests
    → All IsOver t.requests
    → (i : ℕ) (b : Backend) → get_elem? t.shared.backends i ≡ some b
    → b.active_connections ≡ pos (broken_off i t.requests)
broken_leaks {t = t} r small counted over i b at =
    connections-Counted r small counted i b at ∙ ap pos (over-connected i t.requests over)
