-- ===== src/Strategy/Scan/Tests.antt =====
-- Least connections and latency over small lists.
use poly_balance.Base.{◌≡◌, refl, some, none, List, [], ◌∷◌}
use poly_balance.Samples.{dead, tripped, loaded, quick}
use poly_balance.Backend.{Backend, check_circuit_state, get_active_connections, get_average_latency}
use poly_balance.Strategy.Scan.{least_connections, lowest_latency}
use poly_balance.Strategy.Scan.Minimum.{Picks, least_connections-Picks}

abbrev mixed : List Backend
mixed = dead ∷ loaded ∷ quick ∷ tripped ∷ quick ∷ []

least_at_two : least_connections mixed 200 ≡ some 2
unfolding least_connections check_circuit_state get_active_connections
least_at_two = refl

lowest_at_two : lowest_latency mixed 200 ≡ some 2
unfolding lowest_latency check_circuit_state get_average_latency
lowest_at_two = refl

nobody : least_connections (dead ∷ tripped ∷ []) 200 ≡ none
unfolding least_connections check_circuit_state get_active_connections
nobody = refl

least_connections-Picks_example :
    Picks get_active_connections mixed 200 (least_connections mixed 200)
least_connections-Picks_example = least_connections-Picks mixed 200
