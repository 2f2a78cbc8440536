-- ===== src/Server/Concurrent/Sequential.antt =====
-- The handler that serves one request from start to end as a schedule of the steps of that request.
use poly_balance.Base.{ℕ, [], ◌∷◌}
use poly_balance.Backend.Float.{Float64}
use poly_balance.Backend.{Backend}
use poly_balance.Strategy.Hash.{Library}
use poly_balance.Http.{Writer}
use poly_balance.Server.{Server, Attempt, Recorder, recorder_sink, choose, proxy_to}
use poly_balance.Server.Concurrent.{Phase, Shared, World, Reach}
use poly_balance.Server.Concurrent.Leaks.{Over}
use poly_balance.Server.Concurrent.Schedule.{alone}

-- What the server shares between its requests.
abbrev pub shared_of : Server → Shared
shared_of s = record { backends = s.backends; strategies = s.controller.current ∷ []; current = 0 }

module _ (fl : Float64) (lib : Library) (env : ℕ → Attempt) (s₀ : World) where
  -- A run that has come to an end with these shared parts.
  abbrev Ended : Server → Type 0
  Ended s = (p : Phase) × Over p × Reach fl lib s₀ (alone (shared_of s) p)

  -- The state and the recorder after one attempt of the loop.
  abbrev tried : ℕ → ℕ → Server → Writer → Server × Recorder
  tried n i s w =
      proxy_to fl lib env recorder_sink n i (choose fl lib env n s).0
        (record { writer = w; status = 0 })
