-- ===== src/Strategy/Weights.antt =====
-- strategy/: the weights of the backends.
use poly_balance.Base.{
  ℕ, zero, suc, ◌+◌, ◌%◌, ◌≡◌, refl, ap, ◌∙◌, Option, none, some, ℤ, pos, negsuc, List, [], ◌∷◌,
  length,
}
use poly_balance.Backend.{
  Backend, CircuitState, circuit_open, circuit_half_open, circuit_closed, check_circuit,
  check_circuit_state, get_active_connections, get_average_latency,
}
use poly_balance.Strategy.{
  Strategy, by_round_robin, by_least_connections, by_latency, by_consistent_hash, next_backend,
}
use poly_balance.Strategy.Avail.{available}
use poly_balance.Strategy.RoundRobin
use poly_balance.Strategy.RoundRobin.{RoundRobin, attempt, add_one_uint64}
use poly_balance.Strategy.Scan.{Best, consider, scan, least_connections, lowest_latency}
use poly_balance.Strategy.Hash
use poly_balance.Strategy.Hash.{
  ConsistentHash, Library, nodes_of, entries, expected, build_ring, refresh, validate_ring, pick,
}

-- The same backends with other weights.
abbrev pub reweigh : (Backend → ℤ) → List Backend → List Backend
reweigh w [] = []
reweigh w (b ∷ bs) = record b { weight = w b } ∷ reweigh w bs

circuit-reweigh :
    (c : CircuitState) (b : Backend) (x : ℤ) (now : ℕ)
    → check_circuit c (record b { weight = x }) now ≡ check_circuit c b now
unfolding check_circuit
circuit-reweigh circuit_open b x now = refl
circuit-reweigh circuit_half_open b x now = refl
circuit-reweigh circuit_closed b x now = refl

check-reweigh :
    (b : Backend) (x : ℤ) (now : ℕ)
    → check_circuit_state (record b { weight = x }) now ≡ check_circuit_state b now
unfolding check_circuit_state
check-reweigh b x now = circuit-reweigh b.circuit b x now

module _ (w : Backend → ℤ) where
  length-reweigh : (bs : List Backend) → length (reweigh w bs) ≡ length bs
  length-reweigh [] = refl
  length-reweigh (b ∷ bs) = ap suc (length-reweigh bs)

  available-reweigh :
      (bs : List Backend) (now i : ℕ) → available (reweigh w bs) now i ≡ available bs now i
  unfolding available
  available-reweigh [] now i = refl
  available-reweigh (b ∷ bs) now zero = check-reweigh b (w b) now
  available-reweigh (b ∷ bs) now (suc i) = available-reweigh bs now i

  attempt-reweigh :
      (k : ℕ) (bs : List Backend) (now c : ℕ) → attempt k (reweigh w bs) now c ≡ attempt k bs now c
  unfolding attempt
  attempt-reweigh zero bs now c = refl
  attempt-reweigh (suc k) bs now c =
      let next = add_one_uint64 c in
      rw
        (
          length-reweigh bs,
          available-reweigh bs now (next % length bs),
          attempt-reweigh k bs now next,
        )
        refl

  module _ (reading : Backend → ℤ)
      (same : (b : Backend) (x : ℤ) → reading (record b { weight = x }) ≡ reading b) where
    consider-reweigh :
        (now i : ℕ) (b : Backend) (selected : Option ℕ) (value : ℤ)
        → let best : Best = record { selected = selected; value = value } in
          consider reading now i (record b { weight = w b }) best ≡ consider reading now i b best
    unfolding consider
    consider-reweigh now i b none value = rw (check-reweigh b (w b) now, same b (w b)) refl
    consider-reweigh now i b (some k) value = rw (check-reweigh b (w b) now, same b (w b)) refl

    scan-reweigh :
        (now i : ℕ) (bs : List Backend) (best : Best)
        → scan reading now i (reweigh w bs) best ≡ scan reading now i bs best
    unfolding scan
    scan-reweigh now i [] best = refl
    scan-reweigh now i (b ∷ bs) best =
        scan-reweigh now (i + 1) bs (consider reading now i (record b { weight = w b }) best)
        ∙ ap (scan reading now (i + 1) bs) (consider-reweigh now i b best.selected best.value)

  least-reweigh :
      (bs : List Backend) (now : ℕ)
      → least_connections (reweigh w bs) now ≡ least_connections bs now
  unfolding least_connections get_active_connections
  least-reweigh bs now =
      rw
        (
          length-reweigh bs,
          scan-reweigh get_active_connections (λ b x. refl) now 0 bs
              (record { selected = none; value = negsuc 0 }),
        )
        refl

  latency-reweigh :
      (bs : List Backend) (now : ℕ) → lowest_latency (reweigh w bs) now ≡ lowest_latency bs now
  unfolding lowest_latency get_average_latency
  latency-reweigh bs now =
      rw
        (
          length-reweigh bs,
          scan-reweigh get_average_latency (λ b x. refl) now 0 bs
              (record { selected = none; value = pos 0 }),
        )
        refl

  robin-reweigh :
      (rr : RoundRobin) (bs : List Backend) (now : ℕ)
      → RoundRobin.next_backend rr (reweigh w bs) now ≡ RoundRobin.next_backend rr bs now
  unfolding RoundRobin.next_backend
  robin-reweigh rr bs now =
      rw (length-reweigh bs, attempt-reweigh (length bs) bs now rr.counter) refl

  module _ (lib : Library) where
    nodes-reweigh :
        (b : Backend) (x : ℤ) (i v n : ℕ)
        → nodes_of lib (record b { weight = x }) i v n ≡ nodes_of lib b i v n
    unfolding nodes_of
    nodes-reweigh b x i v zero = refl
    nodes-reweigh b x i v (suc n) = rw (nodes-reweigh b x i (v + 1) n) refl

    entries-reweigh :
        (vn now i : ℕ) (bs : List Backend)
        → entries lib vn now i (reweigh w bs) ≡ entries lib vn now i bs
    unfolding entries
    entries-reweigh vn now i [] = refl
    entries-reweigh vn now i (b ∷ bs) =
        rw
          (
            check-reweigh b (w b) now,
            nodes-reweigh b (w b) i 0 vn,
            entries-reweigh vn now (i + 1) bs,
          )
          refl

    expected-reweigh :
        (vn : ℕ) (bs : List Backend) (now : ℕ) → expected vn (reweigh w bs) now ≡ expected vn bs now
    unfolding expected
    expected-reweigh vn [] now = refl
    expected-reweigh vn (b ∷ bs) now =
        rw (check-reweigh b (w b) now, expected-reweigh vn bs now) refl

    refresh-reweigh :
        (c : ConsistentHash) (bs : List Backend) (now : ℕ)
        → refresh lib c (reweigh w bs) now ≡ refresh lib c bs now
    unfolding refresh validate_ring build_ring
    refresh-reweigh c bs now =
        rw (expected-reweigh c.virtual_nodes bs now, entries-reweigh c.virtual_nodes now 0 bs) refl

    hash-reweigh :
        (c : ConsistentHash) (bs : List Backend) (now : ℕ)
        → Hash.next_backend lib c (reweigh w bs) now ≡ Hash.next_backend lib c bs now
    unfolding Hash.next_backend
    hash-reweigh c bs now = rw (length-reweigh bs, refresh-reweigh c bs now) refl

-- The weights have no influence: whatever strategy is in use, and whatever its state, a call over
-- the same backends with any other weights picks the same position and leaves the same state.
pub next_backend-reweigh :
    (lib : Library) (strategy : Strategy) (w : Backend → ℤ) (bs : List Backend) (now : ℕ)
    → next_backend lib strategy (reweigh w bs) now ≡ next_backend lib strategy bs now
unfolding next_backend
next_backend-reweigh lib (by_round_robin rr) w bs now =
    ap (λ (r : RoundRobin × Option ℕ). (by_round_robin r.0, r.1)) (robin-reweigh w rr bs now)
next_backend-reweigh lib by_least_connections w bs now =
    ap (λ o. (by_least_connections, o)) (least-reweigh w bs now)
next_backend-reweigh lib by_latency w bs now = ap (λ o. (by_latency, o)) (latency-reweigh w bs now)
next_backend-reweigh lib (by_consistent_hash c) w bs now =
    ap (λ (r : ConsistentHash × Option ℕ). (by_consistent_hash r.0, r.1))
      (hash-reweigh w lib c bs now)
