-- ===== src/Strategy/Hash/Tests.antt =====
-- Consistent hashing over small lists.
use poly_balance.Base.{◌≡◌, ◌∙◌, refl, some, true, false, List, [], ◌∷◌, arith}
use poly_balance.Backend.{Backend, check_circuit_state}
use poly_balance.Url.{url_text}
use poly_balance.Samples.{idle, dead}
use poly_balance.Strategy.Avail.{available}
use poly_balance.Text.{itoa}
use poly_balance.Strategy.Hash.{
  ConsistentHash, IsSorted, hash_key, next_backend, refresh, build_ring, validate_ring, expected,
  pick, owner, search, entries,
}
use poly_balance.Strategy.Hash.Insertion.{simple_library}
use poly_balance.Strategy.Hash.Owner.{successor}
use poly_balance.Strategy.Hash.Picks.{within, next_backend-successor, same_count_same_pick}
use poly_balance.Strategy.Hash.Rebuilt.{Routed, rebuilt-Routed}

abbrev two_nodes : ConsistentHash
two_nodes = record { ring = []; virtual_nodes = 2 }

abbrev first_up : List Backend
first_up = idle ∷ dead ∷ []

abbrev second_up : List Backend
second_up = dead ∷ idle ∷ []

rebuilt-Routed_example : Routed first_up 0 (next_backend simple_library two_nodes first_up 0).1
rebuilt-Routed_example = rebuilt-Routed simple_library two_nodes first_up 0 (omega arith) refl

next_backend-successor_example :
    (IsSorted (next_backend simple_library two_nodes first_up 0).0.ring)
    × ((next_backend simple_library two_nodes first_up 0).1
        ≡ within 2 (
            successor
              (next_backend simple_library two_nodes first_up 0).0.ring
              (hash_key simple_library "default")))
next_backend-successor_example =
    next_backend-successor simple_library two_nodes first_up 0 (omega arith) tt

same_expected : expected 2 second_up 1 ≡ expected 2 first_up 0
unfolding expected check_circuit_state
same_expected = refl

same_count_same_pick_example :
    (next_backend simple_library (next_backend simple_library two_nodes first_up 0).0 second_up 1).1
    ≡ (next_backend simple_library two_nodes first_up 0).1
same_count_same_pick_example =
    same_count_same_pick simple_library two_nodes first_up second_up 0 1 refl same_expected

first_pick : (next_backend simple_library two_nodes first_up 0).1 ≡ some 0
unfolding next_backend refresh build_ring validate_ring expected pick owner search entries hash_key
    check_circuit_state url_text itoa
first_pick = refl

-- The second call picks the backend that is out of service, although the other one is not.
stale_pick :
    ((next_backend simple_library
        (next_backend simple_library two_nodes first_up 0).0
        second_up
        1).1
      ≡ some 0)
    × (available second_up 1 0 ≡ false)
    × (available second_up 1 1 ≡ true)
unfolding available check_circuit_state
stale_pick = (
  same_count_same_pick simple_library two_nodes first_up second_up 0 1 refl same_expected
      ∙ first_pick,
  refl,
  refl,
)
