-- ===== src/Strategy.antt =====
-- strategy/: the four load-balancing strategies behind one interface.
-- A strategy sees the shared backends and returns the position of the one that it picks, which
-- stands for the pointer, or none for nil. One call reads the clock once.
pub mod Avail
pub mod RoundRobin
pub mod Scan
pub mod Hash
pub mod Range
pub mod Choice
pub mod Weights
use poly_balance.Base.{ℕ, Option, List}
use poly_balance.Backend.{Backend}
use Scan.{least_connections, lowest_latency}
use Hash.{ConsistentHash, Library}

-- The implementations of the interface, with the state of each.
pub data Strategy : Type 0 where
  by_round_robin : RoundRobin.RoundRobin → Strategy
  by_least_connections by_latency : Strategy
  by_consistent_hash : ConsistentHash → Strategy

-- `NextBackend` of whichever strategy it is.
unfoldable pub next_backend : Library → Strategy → List Backend → ℕ → Strategy × Option ℕ
next_backend lib (by_round_robin rr) bs now =
    let (rr', picked) = RoundRobin.next_backend rr bs now in (by_round_robin rr', picked)
next_backend lib by_least_connections bs now = (by_least_connections, least_connections bs now)
next_backend lib by_latency bs now = (by_latency, lowest_latency bs now)
next_backend lib (by_consistent_hash c) bs now =
    let (c', picked) = Hash.next_backend lib c bs now in (by_consistent_hash c', picked)
