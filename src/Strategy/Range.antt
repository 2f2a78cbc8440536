-- ===== src/Strategy/Range.antt =====
-- No strategy of strategy/ returns a position outside the backend list.
use native.Mathlib.Nat.{mod-lt}
use poly_balance.Base.{
  ℕ, zero, suc, ◌%◌, ◌<◌, ◌≡◌, false, Bool-cases, inl, inr, Option, none, some, Option-cases, List,
  [], ◌∷◌, length, ltb, ◌==◌, arith,
}
use poly_balance.Backend.{Backend, get_active_connections, get_average_latency}
use poly_balance.Strategy.{
  Strategy, by_round_robin, by_least_connections, by_latency, by_consistent_hash, next_backend,
}
use poly_balance.Strategy.Avail.{available}
use poly_balance.Strategy.RoundRobin
use poly_balance.Strategy.RoundRobin.{RoundRobin as RoundRobinState, attempt, add_one_uint64}
use poly_balance.Strategy.Scan.Minimum.{Picks, least_connections-Picks, lowest_latency-Picks}
use poly_balance.Strategy.Hash
use poly_balance.Strategy.Hash.{Library, ConsistentHash, RingEntry, pick, owner, hash_key, refresh}

-- The pick, if there is one, is a position of the list.
abbrev pub InRange : ℕ → Option ℕ → Type 0
InRange n none = Unit
InRange n (some i) = i < n

attempt-InRange :
    (k : ℕ) (bs : List Backend) (now c : ℕ)
    → 0 < length bs
    → InRange (length bs) (attempt k bs now c).1
unfolding attempt
attempt-InRange zero bs now c p = tt
attempt-InRange (suc k) bs now c p =
    elim (Bool-cases (available bs now (add_one_uint64 c % length bs))) [
      | inl up ↦ rw up (mod-lt (add_one_uint64 c) p)
      | inr down ↦ rw down (attempt-InRange k bs now (add_one_uint64 c) p)
    ]

round_robin-InRange :
    (rr : RoundRobinState) (bs : List Backend) (now : ℕ)
    → InRange (length bs) (RoundRobin.next_backend rr bs now).1
unfolding RoundRobin.next_backend
round_robin-InRange rr [] now = tt
round_robin-InRange rr (b ∷ bs) now =
    let e : (length (b ∷ bs) == 0) ≡ false = ground arith in
    rw e (attempt-InRange (length (b ∷ bs)) (b ∷ bs) now rr.counter (omega arith))

Picks-InRange :
    (reading : Backend → _) (bs : List Backend) (now : ℕ) (r : Option ℕ)
    → Picks reading bs now r
    → InRange (length bs) r
Picks-InRange reading bs now none p = tt
Picks-InRange reading bs now (some s) p = p.inside

pick-InRange : (lib : Library) (ring : List RingEntry) (n : ℕ) → InRange n (pick lib ring n)
unfolding pick
pick-InRange lib ring n = elim (Option-cases (owner ring (hash_key lib "default"))) [
  | inl nobody ↦ rw (nobody, pick) tt
  | inr (e, found) ↦
      rw (found, pick)
        (elim (Bool-cases (ltb e.idx n)) [
          | inl inside ↦ rw inside (ground arith)
          | inr outside ↦ rw outside tt
        ])
]

hash-InRange :
    (lib : Library) (c : ConsistentHash) (bs : List Backend) (now : ℕ)
    → InRange (length bs) (Hash.next_backend lib c bs now).1
unfolding Hash.next_backend
hash-InRange lib c [] now = tt
hash-InRange lib c (b ∷ bs) now =
    let e : (length (b ∷ bs) == 0) ≡ false = ground arith in
    rw e (elim (Bool-cases (length (refresh lib c (b ∷ bs) now).ring == 0)) [
      | inl empty ↦ rw empty tt
      | inr full ↦ rw full (pick-InRange lib (refresh lib c (b ∷ bs) now).ring (length (b ∷ bs)))
    ])

-- Whatever strategy is in use and whatever its state, a pick is a position of the list it was given.
pub next_backend-InRange :
    (lib : Library) (strategy : Strategy) (bs : List Backend) (now : ℕ)
    → InRange (length bs) (next_backend lib strategy bs now).1
unfolding next_backend
next_backend-InRange lib (by_round_robin rr) bs now = round_robin-InRange rr bs now
next_backend-InRange lib by_least_connections bs now =
    Picks-InRange get_active_connections bs now _ (least_connections-Picks bs now)
next_backend-InRange lib by_latency bs now =
    Picks-InRange get_average_latency bs now _ (lowest_latency-Picks bs now)
next_backend-InRange lib (by_consistent_hash c) bs now = hash-InRange lib c bs now
