-- ===== src/Strategy/Scan.antt =====
-- strategy/least_connections.go and strategy/latency.go: one pass that keeps the best backend so far.
pub mod Minimum
mod Tests
use poly_balance.Base.{
  ℕ, ◌+◌, Bool, true, false, Option, none, some, ℤ, pos, negsuc, ltb_ℤ, List, [], ◌∷◌, length, ◌==◌,
  if◌then◌else◌,
}
use poly_balance.Backend.{Backend, check_circuit_state, get_active_connections, get_average_latency}

-- The loop's variables: the selected position and its value.
pub record Best : Type 0 where
  pub selected : Option ℕ
  pub value : ℤ

-- One round, at the backend in position `i`: skipped, first, better, or no better. Both loops have
-- this body, with their own reading of the backend.
unfoldable pub consider : (Backend → ℤ) → ℕ → ℕ → Backend → Best → Best
consider reading now i b best =
    if check_circuit_state b now
    then elim best.selected [
      | none ↦ record { selected = some i; value = reading b }
      | some _ ↦
          if ltb_ℤ (reading b) best.value
          then record { selected = some i; value = reading b }
          else best
    ]
    else best

unfoldable pub scan : (Backend → ℤ) → ℕ → ℕ → List Backend → Best → Best
scan reading now i [] best = best
scan reading now i (b ∷ bs) best = scan reading now (i + 1) bs (consider reading now i b best)

-- `LeastConnections.NextBackend`: `minConnections` starts at -1.
unfoldable pub least_connections : List Backend → ℕ → Option ℕ
unfolding scan consider
least_connections bs now =
    if length bs == 0
    then none
    else (scan get_active_connections now 0 bs
        (record { selected = none; value = negsuc 0 })).selected

-- `LatencyStrategy.NextBackend`: `bestLatency` starts at the zero value.
unfoldable pub lowest_latency : List Backend → ℕ → Option ℕ
unfolding scan consider
lowest_latency bs now =
    if length bs == 0
    then none
    else (scan get_average_latency now 0 bs (record { selected = none; value = pos 0 })).selected
