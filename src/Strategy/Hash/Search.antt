-- ===== src/Strategy/Hash/Search.antt =====
-- The bisection of `sort.Search` on the ring of strategy/consistent_hash.go.
use poly_balance.Base.{
  ℕ, zero, suc, ◌+◌, ◌/◌, ◌≤◌, ◌<◌, ◌≡◌, Bool, true, false, Bool-cases, inl, inr, ltb, ltb→lt,
  arith,
}
use poly_balance.Strategy.Hash.{search_loop, search}

-- Below `n` the test fails up to `r` and passes from `r` on.
abbrev pub Splits : ℕ → (ℕ → Bool) → ℕ → ℕ → Type 0
Splits n passes i j =
    ((k : ℕ) → k < i → passes k ≡ false) × ((k : ℕ) → j ≤ k → k < n → passes k ≡ true)

abbrev pub Rises : ℕ → (ℕ → Bool) → Type 0
Rises n passes = (k l : ℕ) → k ≤ l → l < n → passes k ≡ true → passes l ≡ true

half_bounds : (i j : ℕ) → i < j → (i ≤ (i + j) / 2) × ((i + j) / 2 < j)
half_bounds i j h = (omega arith, omega arith)

-- A test that fails at `h` fails below it.
falls :
    (n h : ℕ) (passes : ℕ → Bool)
    → Rises n passes
    → h < n
    → passes h ≡ false
    → (k : ℕ) → k < h + 1
    → passes k ≡ false
falls n h passes rises inside fails k below = elim (Bool-cases (passes k)) [
  | inl holds ↦ let up = rises k h (omega arith) inside holds in ground arith
  | inr fails' ↦ fails'
]

search_loop-Splits :
    (n fuel i j : ℕ) (passes : ℕ → Bool)
    → Rises n passes
    → i ≤ j
    → j ≤ n
    → j < i + fuel
    → Splits n passes i j
    → (search_loop fuel passes i j ≤ n)
      × Splits n passes (search_loop fuel passes i j) (search_loop fuel passes i j)
unfolding search_loop
search_loop-Splits n zero i j passes rises a b c s = absurd (omega arith)
search_loop-Splits n (suc fuel) i j passes rises a b c s = elim (Bool-cases (ltb i j)) [
  | inl less ↦
      let (low, high) = half_bounds i j (ltb→lt i j less) in
      elim (Bool-cases (passes ((i + j) / 2))) [
        | inl holds ↦
            rw (less, holds)
              (search_loop-Splits n fuel i ((i + j) / 2) passes rises low (omega arith)
                (omega arith) (s.0, λ k from inside. rises ((i + j) / 2) k from inside holds))
        | inr fails ↦
            rw (less, fails)
              (search_loop-Splits n fuel ((i + j) / 2 + 1) j passes rises (omega arith) b
                (omega arith) (falls n ((i + j) / 2) passes rises (omega arith) fails, s.1))
      ]
  | inr same ↦
      let e : i ≡ j = ground arith in
      rw same (omega arith, (s.0, λ k from inside. s.1 k (omega arith) inside))
]

pub search-Splits :
    (n : ℕ) (passes : ℕ → Bool)
    → Rises n passes
    → (search n passes ≤ n) × Splits n passes (search n passes) (search n passes)
unfolding search
search-Splits n passes rises =
    search_loop-Splits n (n + 1) 0 n passes rises (omega arith) (omega arith) (omega arith)
      ((λ k below. absurd (omega arith)), λ k from inside. absurd (omega arith))
