-- ===== src/Strategy/RoundRobin/Fair.antt =====
-- Round robin is fair: with every backend available, a round of calls picks each of them once.
use native.Mathlib.Nat.{mod-lt, mod-add-mod, mod-eq_of_lt}
use native.Mathlib.Decide.{dec_lt}
use poly_balance.Base.{
  ℕ, zero, suc, ◌+◌, ◌-◌, ◌%◌, ◌<◌, ◌≡◌, ◌≢◌, sym, ◌∙◌, true, false, Option, some, List, [], ◌∷◌,
  length, ◌==◌, arith, ap, get_elem?,
}
use poly_balance.Backend.{Backend}
use poly_balance.Strategy.Avail.{available}
use poly_balance.Strategy.RoundRobin.{RoundRobin, add_one_uint64, attempt, next_backend}
use poly_balance.Strategy.RoundRobin.Order.{reaches, mod_of_split}

-- The picks of calls in a row, one for each clock reading.
unfoldable pub picks : RoundRobin → List Backend → List ℕ → List (Option ℕ)
picks rr bs [] = []
picks rr bs (now ∷ nows) = let (rr', picked) = next_backend rr bs now in picked ∷ picks rr' bs nows

-- Every backend is available at each of the moments.
abbrev pub AlwaysOpen : List Backend → List ℕ → Type 0
AlwaysOpen bs [] = Unit
AlwaysOpen bs (now ∷ nows) =
    ((i : ℕ) → i < length bs → available bs now i ≡ true) × AlwaysOpen bs nows

first_try :
    (m : ℕ) (bs : List Backend) (now c : ℕ)
    → c + 1 < 18446744073709551616
    → available bs now ((c + 1) % length bs) ≡ true
    → attempt (suc m) bs now c ≡ (c + 1, some ((c + 1) % length bs))
unfolding attempt
first_try m bs now c h av = let e : add_one_uint64 c ≡ c + 1 = omega arith in rw (e, av)

open-next :
    (rr : RoundRobin) (bs : List Backend) (now : ℕ)
    → 0 < length bs
    → rr.counter + 1 < 18446744073709551616
    → ((i : ℕ) → i < length bs → available bs now i ≡ true)
    → next_backend rr bs now
      ≡ (record { counter = rr.counter + 1 }, some ((rr.counter + 1) % length bs))
unfolding next_backend
open-next rr [] now p h av = absurd (omega arith)
open-next rr (b ∷ bs) now p h av =
    let some_backend : (length (b ∷ bs) == 0) ≡ false = ground arith in
    rw (
      some_backend,
      first_try (length bs) (b ∷ bs) now rr.counter h
          (av ((rr.counter + 1) % length (b ∷ bs)) (mod-lt (rr.counter + 1) (omega arith))),
    )

picks-open :
    (nows : List ℕ) (rr : RoundRobin) (bs : List Backend) (k : ℕ)
    → 0 < length bs
    → rr.counter + length nows < 18446744073709551616
    → AlwaysOpen bs nows
    → k < length nows
    → get_elem? (picks rr bs nows) k ≡ some (some ((rr.counter + 1 + k) % length bs))
unfolding picks
picks-open [] rr bs k p h av lt = absurd (omega arith)
picks-open (now ∷ nows) rr bs zero p h av lt = rw (open-next rr bs now p (omega arith) av.0) (
    ap (λ t. some (some (t % length bs)))
      (let e : rr.counter + 1 ≡ rr.counter + 1 + 0 = omega arith in e))
picks-open (now ∷ nows) rr bs (suc k) p h av lt = rw (open-next rr bs now p (omega arith) av.0) (
    picks-open nows (record { counter = rr.counter + 1 }) bs k p (omega arith) av.1 (omega arith)
    ∙ ap (λ t. some (some (t % length bs)))
        (let e : rr.counter + 1 + 1 + k ≡ rr.counter + 1 + suc k = omega arith in e))

-- Less than a round further on, the position is another.
no_return : (a n d : ℕ) → 0 < d → d < n → (a + d) % n ≢ a % n
no_return a n d p q e =
    let r = mod-lt a {m = n} (omega arith) in
    let moved : (a % n + d) % n ≡ a % n = mod-add-mod a n d ∙ e in
    elim (dec_lt (a % n + d) n) [
      | yes small ↦ omega (arith, moved, mod-eq_of_lt small)
      | no big ↦
          omega
            (arith, moved, mod_of_split (a % n + d) n 1 (a % n + d - n) (omega arith) (omega arith))
    ]

same_step : (c n j k : ℕ) → j < n → k < n → (c + j) % n ≡ (c + k) % n → j ≡ k
same_step c n j k hj hk e = elim (dec_lt j k) [
  | yes before ↦
      let s : c + j + (k - j) ≡ c + k = omega arith in
      absurd (no_return (c + j) n (k - j) (omega arith) (omega arith) (ap (λ t. t % n) s ∙ sym e))
  | no later ↦ elim (dec_lt k j) [
    | yes after ↦
        let s : c + k + (j - k) ≡ c + j = omega arith in
        absurd (no_return (c + k) n (j - k) (omega arith) (omega arith) (ap (λ t. t % n) s ∙ e))
    | no equal ↦ omega arith
  ]
]

-- While every backend is available, a round of as many calls as there are backends picks each
-- position exactly once. (The counter does not wrap within the round.)
pub round_is_fair :
    (nows : List ℕ) (rr : RoundRobin) (bs : List Backend) (i : ℕ)
    → length nows ≡ length bs
    → rr.counter + length bs < 18446744073709551616
    → AlwaysOpen bs nows
    → i < length bs
    → (k : ℕ) × (k < length nows)
      × (get_elem? (picks rr bs nows) k ≡ some (some i))
      × ((j : ℕ) → j < length nows → get_elem? (picks rr bs nows) j ≡ some (some i) → j ≡ k)
round_is_fair nows rr bs i same h av lt =
    let (k, p, q, at) = reaches rr.counter (length bs) i lt in
    let pick =
      λ (j : ℕ) (l : j < length nows). picks-open nows rr bs j (omega arith) (omega arith) av l in
    let here : (rr.counter + 1 + (k - 1)) % length bs ≡ i =
      (let e : rr.counter + 1 + (k - 1) ≡ rr.counter + k = omega arith in
        ap (λ t. t % length bs) e ∙ at) in
    (
      k - 1,
      omega arith,
      pick (k - 1) (omega arith) ∙ ap (λ t. some (some t)) here,
      λ j l e.
          let there : (rr.counter + 1 + j) % length bs ≡ i = cc (pick j l) in
          same_step (rr.counter + 1) (length bs) j (k - 1) (omega arith) (omega arith)
            (there ∙ sym here),
    )
