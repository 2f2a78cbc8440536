-- ===== src/Strategy/RoundRobin/Order.antt =====
-- Round robin picks the first available backend in cyclic order, and misses none.
use native.Mathlib.Decide.{dec_lt}
use native.Mathlib.Nat.{mul-add-mod_self_left, mod-lt, mod-eq_of_lt, div-add-mod}
use poly_balance.Base.{
  ℕ, zero, suc, ◌+◌, ◌-◌, ◌*◌, ◌/◌, ◌%◌, ◌≤◌, ◌<◌, ◌≡◌, refl, sym, ◌∙◌, inl, inr, true, false,
  Bool-cases, Option, none, some, List, length, ◌==◌, arith, ap, subst,
}
use poly_balance.Backend.{Backend}
use poly_balance.Strategy.Avail.{available}
use poly_balance.Strategy.RoundRobin.{RoundRobin, add_one_uint64, attempt, next_backend}

-- The pick after `k` increments of the counter `c`, all earlier positions refused.
pub record FirstFrom (bs : List Backend) (now c k i : ℕ) : Type 0 where
  pub tried : (0 < k) × (k ≤ length bs)
  pub place : i ≡ (c + k) % length bs
  pub open_now : available bs now i ≡ true
  pub skipped : (j : ℕ) → 0 < j → j < k → available bs now ((c + j) % length bs) ≡ false

-- What the loop with `m` attempts left returns.
abbrev Outcome : List Backend → ℕ → ℕ → ℕ → ℕ × Option ℕ → Type 0
Outcome bs now c m (c', none) =
    (c' ≡ c + m) × ((j : ℕ) → 0 < j → j < m + 1 → available bs now ((c + j) % length bs) ≡ false)
Outcome bs now c m (c', some i) =
    (k : ℕ) × (c' ≡ c + k)
    × (0 < k)
    × (k ≤ m)
    × (i ≡ (c + k) % length bs)
    × (available bs now i ≡ true)
    × ((j : ℕ) → 0 < j → j < k → available bs now ((c + j) % length bs) ≡ false)

add_one_exact : (c : ℕ) → c + 1 < 18446744073709551616 → add_one_uint64 c ≡ c + 1
add_one_exact c h = omega arith

shift_skipped :
    (bs : List Backend) (now c m : ℕ)
    → available bs now ((c + 1) % length bs) ≡ false
    → ((j : ℕ) → 0 < j → j < m → available bs now ((c + 1 + j) % length bs) ≡ false)
    → (j : ℕ) → 0 < j
    → j < m + 1
    → available bs now ((c + j) % length bs) ≡ false
shift_skipped bs now c m head tail zero p q = absurd (omega arith)
shift_skipped bs now c m head tail (suc zero) p q = head
shift_skipped bs now c m head tail (suc (suc j)) p q =
    let e : c + 1 + suc j ≡ c + suc (suc j) = omega arith in
    subst (λ t. available bs now (t % length bs) ≡ false) e
      (tail (suc j) (omega arith) (omega arith))

shift_outcome :
    (bs : List Backend) (now c m : ℕ) (r : ℕ × Option ℕ)
    → available bs now ((c + 1) % length bs) ≡ false
    → Outcome bs now (c + 1) m r
    → Outcome bs now c (suc m) r
shift_outcome bs now c m (c', none) head o =
    (omega (arith, o.0), λ j p q. shift_skipped bs now c (m + 1) head o.1 j p (omega arith))
shift_outcome bs now c m (c', some i) head (k, e, p, q, place, av, skip) = (
  k + 1,
  omega arith,
  omega arith,
  omega arith,
  place ∙ ap (λ t. t % length bs) (let s : c + 1 + k ≡ c + (k + 1) = omega arith in s),
  av,
  shift_skipped bs now c k head skip,
)

attempt-Outcome :
    (m : ℕ) (bs : List Backend) (now c : ℕ)
    → c + m < 18446744073709551616
    → Outcome bs now c m (attempt m bs now c)
unfolding attempt
attempt-Outcome zero bs now c h = (omega arith, λ j p q. absurd (omega arith))
attempt-Outcome (suc m) bs now c h =
    rw (add_one_exact c (omega arith)) (elim (Bool-cases (available bs now ((c + 1) % length bs))) [
      | inl hit ↦
          rw hit (1, refl, omega arith, omega arith, refl, hit, λ j p q. absurd (omega arith))
      | inr miss ↦
          rw miss (shift_outcome bs now c m _ miss (attempt-Outcome m bs now (c + 1) (omega arith)))
    ])

Outcome-first :
    (bs : List Backend) (now c : ℕ) (r : ℕ × Option ℕ) (i : ℕ)
    → Outcome bs now c (length bs) r
    → r.1 ≡ some i
    → (k : ℕ) × (r.0 ≡ c + k) × FirstFrom bs now c k i
Outcome-first bs now c (c', none) i o e = ground arith
Outcome-first bs now c (c', some j) i (k, at, p, q, place, av, skip) e =
    let same : j ≡ i = ground arith in
    (
      k,
      at,
      record {
        tried = (p, q);
        place = sym same ∙ place;
        open_now = rw (← same) av;
        skipped = skip;
      },
    )

-- A call picks the first available backend after the counter's position, in cyclic order, and the
-- counter advances to it: every position passed over was unavailable. (The counter is at least the
-- number of backends below 2^64.)
pub next_backend-FirstFrom :
    (rr : RoundRobin) (bs : List Backend) (now i : ℕ)
    → rr.counter + length bs < 18446744073709551616
    → (next_backend rr bs now).1 ≡ some i
    → (k : ℕ) × ((next_backend rr bs now).0.counter ≡ rr.counter + k)
      × FirstFrom bs now rr.counter k i
unfolding next_backend
next_backend-FirstFrom rr bs now i h e = elim (Bool-cases (length bs == 0)) [
  | inl nobody ↦ absurd (ground arith)
  | inr somebody ↦ rw somebody (
      Outcome-first bs now rr.counter (attempt (length bs) bs now rr.counter) i
        (attempt-Outcome (length bs) bs now rr.counter h) (rw somebody at e))
]

pub mod_of_split : (a n q i : ℕ) → a ≡ n * q + i → i < n → a % n ≡ i
mod_of_split a n q i e h = rw e (mul-add-mod_self_left n q i ∙ mod-eq_of_lt h)

-- Each position is reached from any counter within one round.
pub reaches : (c n i : ℕ) → i < n → (j : ℕ) × (0 < j) × (j ≤ n) × ((c + j) % n ≡ i)
reaches c n i h =
    let r = mod-lt c {m = n} (omega arith) in
    let whole = div-add-mod c n in
    elim (dec_lt (c % n) i) [
      | yes below ↦ (
        i - c % n,
        omega arith,
        omega arith,
        mod_of_split (c + (i - c % n)) n (c / n) i (omega arith) h,
      )
      | no above ↦ (
        i + n - c % n,
        omega arith,
        omega arith,
        mod_of_split (c + (i + n - c % n)) n (c / n + 1) i (omega arith) h,
      )
    ]

Outcome-none :
    (bs : List Backend) (now c : ℕ) (r : ℕ × Option ℕ) (i : ℕ)
    → Outcome bs now c (length bs) r
    → r.1 ≡ none
    → i < length bs
    → available bs now i ≡ false
Outcome-none bs now c (c', some j) i o e h = ground arith
Outcome-none bs now c (c', none) i o e h =
    let (j, p, q, at) = reaches c (length bs) i h in
    subst (λ t. available bs now t ≡ false) at (o.1 j p (omega arith))

-- A call that picks nothing has found every backend unavailable. (The same bound on the counter.)
pub next_backend-none :
    (rr : RoundRobin) (bs : List Backend) (now i : ℕ)
    → rr.counter + length bs < 18446744073709551616
    → (next_backend rr bs now).1 ≡ none
    → i < length bs
    → available bs now i ≡ false
unfolding next_backend
next_backend-none rr bs now i h e lt = elim (Bool-cases (length bs == 0)) [
  | inl nobody ↦ absurd (ground arith)
  | inr somebody ↦
      Outcome-none bs now rr.counter (attempt (length bs) bs now rr.counter) i
        (attempt-Outcome (length bs) bs now rr.counter h) (rw somebody at e) lt
]
