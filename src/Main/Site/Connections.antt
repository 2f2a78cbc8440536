-- ===== src/Main/Site/Connections.antt =====
-- The handler of cmd/main.go's listener: the connection counts of the backends.
use poly_balance.Base.{◌≡◌, String, List, All}
use poly_balance.Backend.{Backend}
use poly_balance.Server.Laws.{connections, HasSlot}

-- Room in the counts of the backends `cs`, which are those of `bs`.
abbrev Steady : List Backend → List Backend → Type 0
Steady bs cs = All HasSlot cs × (connections cs ≡ connections bs)
