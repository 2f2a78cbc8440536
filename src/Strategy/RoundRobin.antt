-- ===== src/Strategy/RoundRobin.antt =====
-- strategy/round_robin.go.
pub mod Order
pub mod Fair
mod Tests
use poly_balance.Base.{
  ℕ, zero, suc, ◌+◌, ◌%◌, Bool, true, false, Option, none, some, List, length, ◌==◌, if◌then◌else◌,
}
use poly_balance.Backend.{Backend}
use poly_balance.Strategy.Avail.{available}

pub record RoundRobin : Type 0 where
  pub counter : ℕ

unfoldable pub new_round_robin : RoundRobin
new_round_robin = record { counter = 0 }

-- `atomic.AddUint64(&counter, 1)` wraps at 2^64.
abbrev pub add_one_uint64 : ℕ → ℕ
add_one_uint64 c = (c + 1) % 18446744073709551616

-- The loop over the attempts that are left; it returns the counter and the pick.
unfoldable pub attempt : ℕ → List Backend → ℕ → ℕ → ℕ × Option ℕ
attempt zero bs now c = (c, none)
attempt (suc k) bs now c =
    let next = add_one_uint64 c in
    let rest = attempt k bs now next in
    if available bs now (next % length bs) then (next, some (next % length bs)) else rest

unfoldable pub next_backend : RoundRobin → List Backend → ℕ → RoundRobin × Option ℕ
unfolding attempt
next_backend rr bs now =
    if length bs == 0
    then (rr, none)
    else (let (c, picked) = attempt (length bs) bs now rr.counter in
        (record { counter = c }, picked))
