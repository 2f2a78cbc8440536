-- ===== src/Strategy/Avail.antt =====
-- Which positions of the backend list may be picked.
use poly_balance.Base.{ℕ, Bool, false, none, some, List, get_elem?}
use poly_balance.Backend.{Backend, check_circuit_state}

-- `backends[i].CheckCircuitState()`; a position out of range holds no backend.
unfoldable pub available : List Backend → ℕ → ℕ → Bool
available bs now i = elim (get_elem? bs i) [ none ↦ false | some b ↦ check_circuit_state b now ]
