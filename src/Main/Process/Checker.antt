-- ===== src/Main/Process/Checker.antt =====
-- cmd/main.go: the context that main gives the health checker, over the life of the process.
use poly_balance.Base.{List, [], ◌∷◌, ◌⊎◌, inl, inr}
use poly_balance.Backend.{Backend}
use poly_balance.Health.{HealthChecker, Network, Signal, tick, done, start}
use poly_balance.Main.Process.{Process, Occurrence}

-- A tick of the checker, with the network that it meets, or an event of the process.
abbrev pub Event : Type 0
Event = Network ⊎ Occurrence

-- What the checker receives: its ticks, and the end of the context, which either event brings.
unfoldable pub signals : List Event → List Signal
signals [] = []
signals (inl net ∷ es) = tick net ∷ signals es
signals (inr o ∷ es) = done ∷ signals es

unfoldable pub occurrences : List Event → List Occurrence
occurrences [] = []
occurrences (inl net ∷ es) = occurrences es
occurrences (inr o ∷ es) = o ∷ occurrences es

-- The backends after these events, and the process.
unfoldable pub checked : HealthChecker → List Event → List Backend → List Backend
unfolding signals start
checked hc es bs = start hc (signals es) bs
