-- ===== src/Strategy/Scan/Minimum.antt =====
-- The pass finds the first available backend with the least reading.
use native.Mathlib.Decide.{dec_lt}
use poly_balance.Base.{
  ℕ, suc, ◌+◌, ◌<◌, ◌≡◌, refl, sym, ◌∙◌, true, false, Bool-cases, Option, none, some, ℤ, pos,
  negsuc, ◌≤ℤ◌, ltb_ℤ, ltb_ℤ→not_≤ℤ, ≤ℤ_trans, ≤ℤ_total_of_ltb, List, [], ◌∷◌, length, ◌==◌, arith,
  ap, subst, inl, inr, get_elem?,
}
use poly_balance.Backend.{Backend, check_circuit_state, get_active_connections, get_average_latency}
use poly_balance.Strategy.Avail.{available}
use poly_balance.Strategy.Scan.{Best, consider, scan, least_connections, lowest_latency}

-- The reading of the backend at a position.
abbrev pub reading_at : (Backend → ℤ) → List Backend → ℕ → ℤ
reading_at reading bs i = elim (get_elem? bs i) [ none ↦ pos 0 | some b ↦ reading b ]

-- Position `s` is the first, among those below `n`, of the available ones with the least reading.
pub record IsFirstMin (reading : Backend → ℤ) (bs : List Backend) (now n s : ℕ) : Type 0 where
  pub inside : s < n
  pub open_now : available bs now s ≡ true
  pub least :
      (j : ℕ)
      → j < n
      → available bs now j ≡ true
      → reading_at reading bs s ≤ℤ reading_at reading bs j
  pub first :
      (j : ℕ)
      → j < s
      → available bs now j ≡ true
      → ¬ (reading_at reading bs j ≤ℤ reading_at reading bs s)

-- What the loop knows before its round at position `n`.
abbrev Knows : (Backend → ℤ) → List Backend → ℕ → ℕ → Option ℕ → ℤ → Type 0
Knows reading bs now n none value = (j : ℕ) → j < n → available bs now j ≡ false
Knows reading bs now n (some s) value =
    IsFirstMin reading bs now n s × (reading_at reading bs s ≡ value)

-- Positions below n + 1 are those below n, and n.
below_suc : {P : ℕ → Type 0} (n : ℕ) → ((j : ℕ) → j < n → P j) → P n → (j : ℕ) → j < n + 1 → P j
below_suc {P} n below at j h = elim (dec_lt j n) [
  | yes less ↦ below j less
  | no not_less ↦ let e : n ≡ j = omega arith in subst P e at
]

module _ (reading : Backend → ℤ) (bs : List Backend) (now : ℕ) where
  at_position :
      (n : ℕ) (b : Backend)
      → get_elem? bs n ≡ some b
      → (available bs now n ≡ check_circuit_state b now) × (reading_at reading bs n ≡ reading b)
  unfolding available
  at_position n b at = (rw (at, available), rw (at, reading_at))

  new_min :
      (n : ℕ)
      → available bs now n ≡ true
      → ((j : ℕ)
          → j < n
          → available bs now j ≡ true
          → ¬ (reading_at reading bs j ≤ℤ reading_at reading bs n))
      → IsFirstMin reading bs now (n + 1) n
  new_min n av above = record {
    inside = omega arith;
    open_now = av;
    least =
        below_suc
          {P = λ j. available bs now j ≡ true → reading_at reading bs n ≤ℤ reading_at reading bs j}
          n (λ j h up. omega (arith, above j h up)) (λ up. omega arith);
    first = above;
  }

  old_min :
      (n s : ℕ)
      → IsFirstMin reading bs now n s
      → (available bs now n ≡ true → reading_at reading bs s ≤ℤ reading_at reading bs n)
      → IsFirstMin reading bs now (n + 1) s
  old_min n s m above = record {
    inside = omega (arith, m.inside);
    open_now = m.open_now;
    least =
        below_suc
          {P = λ j. available bs now j ≡ true → reading_at reading bs s ≤ℤ reading_at reading bs j}
          n m.least above;
    first = m.first;
  }

  consider-Knows :
      (n : ℕ) (b : Backend) (sel : Option ℕ) (value : ℤ)
      → get_elem? bs n ≡ some b
      → Knows reading bs now n sel value
      → let after = consider reading now n b (record { selected = sel; value = value }) in
        Knows reading bs now (n + 1) after.selected after.value
  unfolding consider
  consider-Knows n b none value at k =
      let (av, rd) = at_position n b at in
      elim (Bool-cases (check_circuit_state b now)) [
        | inl up ↦ rw up (new_min n (av ∙ up) (λ j h other. cc (k j h)), rd)
        | inr down ↦ rw down (below_suc {P = λ j. available bs now j ≡ false} n k (av ∙ down))
      ]
  consider-Knows n b (some s) value at k =
      let (av, rd) = at_position n b at in
      elim (Bool-cases (check_circuit_state b now)) [
        | inl up ↦ elim (Bool-cases (ltb_ℤ (reading b) value)) [
          | inl better ↦
              rw (up, better)
                (
                  new_min n (av ∙ up) (λ j h other le. ltb_ℤ→not_≤ℤ (reading b) value better (
                      ≤ℤ_trans value (reading_at reading bs j) (reading b)
                        (subst (λ z. z ≤ℤ reading_at reading bs j) k.1 (k.0.least j h other))
                        (subst (λ z. reading_at reading bs j ≤ℤ z) rd le))),
                  rd,
                )
          | inr worse ↦
              rw (up, worse)
                (
                  old_min n s k.0 (λ other.
                      subst (λ z. reading_at reading bs s ≤ℤ z) (sym rd)
                        (subst (λ z. z ≤ℤ reading b) (sym k.1)
                          (≤ℤ_total_of_ltb (reading b) value worse))),
                  k.1,
                )
        ]
        | inr down ↦ rw down (old_min n s k.0 (λ other. cc), k.1)
      ]

  -- The list still to come is the rest of `bs` from position `n` on.
  scan-Knows :
      (rest : List Backend) (n : ℕ) (best : Best)
      → ((i : ℕ) → get_elem? bs (n + i) ≡ get_elem? rest i)
      → Knows reading bs now n best.selected best.value
      → let after = scan reading now n rest best in
        Knows reading bs now (n + length rest) after.selected after.value
  unfolding scan
  scan-Knows [] n best same k =
      let e : n ≡ n + 0 = omega arith in
      subst (λ m. Knows reading bs now m best.selected best.value) e k
  scan-Knows (b ∷ rest) n best same k =
      let at : get_elem? bs n ≡ some b =
        (let e : n + 0 ≡ n = omega arith in subst (λ m. get_elem? bs m ≡ some b) e (same 0)) in
      let after = consider reading now n b best in
      let e : n + 1 + length rest ≡ n + suc (length rest) = omega arith in
      subst
        (λ m.
          Knows reading bs now m (scan reading now (n + 1) rest after).selected
            (scan reading now (n + 1) rest after).value)
        e
        (scan-Knows rest (n + 1) after
          (λ i.
            let s : n + 1 + i ≡ n + suc i = omega arith in
            subst (λ m. get_elem? bs m ≡ get_elem? rest i) (sym s) (same (suc i)))
          (consider-Knows n b best.selected best.value at k))

-- What a whole pass promises of its result.
abbrev pub Picks : (Backend → ℤ) → List Backend → ℕ → Option ℕ → Type 0
Picks reading bs now none = (j : ℕ) → j < length bs → available bs now j ≡ false
Picks reading bs now (some s) = IsFirstMin reading bs now (length bs) s

Knows-Picks :
    (reading : Backend → ℤ) (bs : List Backend) (now : ℕ) (sel : Option ℕ) (value : ℤ)
    → Knows reading bs now (0 + length bs) sel value
    → Picks reading bs now sel
Knows-Picks reading bs now none value k = λ j h. k j (omega arith)
Knows-Picks reading bs now (some s) value k =
    let e : 0 + length bs ≡ length bs = omega arith in
    subst (λ m. IsFirstMin reading bs now m s) e k.0

scan-Picks :
    (reading : Backend → ℤ) (bs : List Backend) (now : ℕ) (value : ℤ)
    → Picks reading bs now
        (scan reading now 0 bs (record { selected = none; value = value })).selected
scan-Picks reading bs now value = Knows-Picks reading bs now _ _ (
    scan-Knows reading bs now bs 0 (record { selected = none; value = value })
      (λ i. let e : 0 + i ≡ i = omega arith in ap (get_elem? bs) e) (λ j h. absurd (omega arith)))

-- Least connections picks nothing exactly when no backend is available, and otherwise the first
-- available backend that no available one has fewer active connections than.
pub least_connections-Picks :
    (bs : List Backend) (now : ℕ) → Picks get_active_connections bs now (least_connections bs now)
unfolding least_connections
least_connections-Picks [] now = λ j h. absurd (omega arith)
least_connections-Picks (b ∷ bs) now =
    let e : (length (b ∷ bs) == 0) ≡ false = ground arith in
    rw e (scan-Picks get_active_connections (b ∷ bs) now (negsuc 0))

-- The latency strategy picks nothing exactly when no backend is available, and otherwise the first
-- available backend that no available one has a lower average latency than.
pub lowest_latency-Picks :
    (bs : List Backend) (now : ℕ) → Picks get_average_latency bs now (lowest_latency bs now)
unfolding lowest_latency
lowest_latency-Picks [] now = λ j h. absurd (omega arith)
lowest_latency-Picks (b ∷ bs) now =
    let e : (length (b ∷ bs) == 0) ≡ false = ground arith in
    rw e (scan-Picks get_average_latency (b ∷ bs) now (pos 0))

Picks-some :
    (reading : Backend → ℤ) (bs : List Backend) (now j : ℕ) (r : Option ℕ)
    → Picks reading bs now r
    → j < length bs
    → available bs now j ≡ true
    → (s : ℕ) × (r ≡ some s) × (reading_at reading bs s ≤ℤ reading_at reading bs j)
Picks-some reading bs now j none k h av = cc (k j h)
Picks-some reading bs now j (some s) k h av = (s, refl, k.least j h av)

-- As soon as an available backend has no recorded latency, the latency strategy picks one whose
-- average is not above zero: the unmeasured come first, not last.
pub unmeasured_first :
    (bs : List Backend) (now j : ℕ)
    → j < length bs
    → available bs now j ≡ true
    → reading_at get_average_latency bs j ≡ pos 0
    → (s : ℕ) × (lowest_latency bs now ≡ some s) × (reading_at get_average_latency bs s ≤ℤ pos 0)
unmeasured_first bs now j h av zero_reading =
    let (s, e, le) =
      Picks-some get_average_latency bs now j (lowest_latency bs now) (lowest_latency-Picks bs now)
        h av in
    (s, e, subst (λ z. reading_at get_average_latency bs s ≤ℤ z) zero_reading le)
