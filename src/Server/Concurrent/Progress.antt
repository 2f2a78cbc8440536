-- ===== src/Server/Concurrent/Progress.antt =====
-- server/http_server.go: the next step of a request under way.
use poly_balance.Base.{ℕ}
use poly_balance.Backend.Float.{Float64}
use poly_balance.Backend.{Backend}
use poly_balance.Strategy.Hash.{Library}
use poly_balance.Server.Concurrent.{Phase, Shared, Move}

module _ (fl : Float64) (lib : Library) where
  -- A step of a request, whatever the others do.
  abbrev pub CanMove : Shared → ℕ → Phase → Type 0
  CanMove m o p = (m' : Shared) × (p' : Phase) × Move fl lib m o p m' p'
