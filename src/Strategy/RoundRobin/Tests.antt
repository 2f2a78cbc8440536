-- ===== src/Strategy/RoundRobin/Tests.antt =====
-- Round robin over small lists.
use poly_balance.Base.{
  ℕ, zero, suc, ◌+◌, ◌<◌, ◌≡◌, refl, true, some, List, [], ◌∷◌, arith, length, get_elem?,
}
use poly_balance.Samples.{idle, dead, tripped, loaded}
use poly_balance.Backend.{Backend, check_circuit_state}
use poly_balance.Strategy.Avail.{available}
use poly_balance.Strategy.RoundRobin.{RoundRobin, new_round_robin, next_backend}
use poly_balance.Strategy.RoundRobin.Order.{FirstFrom, next_backend-FirstFrom}
use poly_balance.Strategy.RoundRobin.Fair.{picks, round_is_fair}

abbrev at_four : RoundRobin
at_four = record { counter = 4 }

abbrev mixed : List Backend
mixed = dead ∷ idle ∷ tripped ∷ []

abbrev all_up : List Backend
all_up = idle ∷ loaded ∷ idle ∷ []

first_call : (next_backend new_round_robin mixed 200).1 ≡ some 1
unfolding new_round_robin next_backend available check_circuit_state
first_call = refl

skips_two : next_backend at_four mixed 200 ≡ (record { counter = 7 }, some 1)
unfolding next_backend available check_circuit_state
skips_two = refl

next_backend-FirstFrom_example :
    (k : ℕ) × ((next_backend at_four mixed 200).0.counter ≡ 4 + k) × FirstFrom mixed 200 4 k 1
unfolding next_backend available check_circuit_state
next_backend-FirstFrom_example = next_backend-FirstFrom at_four mixed 200 1 (omega arith) refl

up_at : (i : ℕ) → i < length all_up → available all_up 7 i ≡ true
unfolding available check_circuit_state
up_at zero h = refl
up_at (suc zero) h = refl
up_at (suc (suc zero)) h = refl
up_at (suc (suc (suc i))) h = absurd (omega arith)

round_is_fair_example :
    (k : ℕ) × (k < 3)
    × (get_elem? (picks at_four all_up (7 ∷ 7 ∷ 7 ∷ [])) k ≡ some (some 2))
    × ((j : ℕ)
        → j < 3
        → get_elem? (picks at_four all_up (7 ∷ 7 ∷ 7 ∷ [])) j ≡ some (some 2)
        → j ≡ k)
round_is_fair_example =
    round_is_fair (7 ∷ 7 ∷ 7 ∷ []) at_four all_up 2 refl (omega arith) (up_at, (up_at, (up_at, tt)))
      (omega arith)
