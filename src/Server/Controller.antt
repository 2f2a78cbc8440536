-- ===== src/Server/Controller.antt =====
-- server/strategy_controller.go.
use poly_balance.Base.{String, Bool, true, false, List, [], ◌∷◌, pos, str_eq, if◌then◌else◌}
use poly_balance.Strategy.{
  Strategy, by_round_robin, by_least_connections, by_latency, by_consistent_hash,
}
use poly_balance.Strategy.RoundRobin.{new_round_robin}
use poly_balance.Strategy.Hash.{new_consistent_hash}

pub record StrategyController : Type 0 where
  pub current : Strategy
  pub name : String

-- `Set`: a new object for a known name; an unknown one changes nothing.
unfoldable pub set : String → StrategyController → StrategyController × Bool
set name sc =
    if str_eq name "round_robin"
    then (record { current = by_round_robin new_round_robin; name = name }, true)
    else if str_eq name "least_connections"
    then (record { current = by_least_connections; name = name }, true)
    else if str_eq name "latency"
    then (record { current = by_latency; name = name }, true)
    else if str_eq name "consistent_hash"
    then (
      record { current = by_consistent_hash (new_consistent_hash (pos 100)); name = name },
      true,
    )
    else (sc, false)

abbrev pub available_strategies : List String
available_strategies = "round_robin" ∷ "least_connections" ∷ "latency" ∷ "consistent_hash" ∷ []
