-- ===== src/Base/Updates.antt =====
-- Weighted sums over lists, and what a read finds after a write.
use Prim.Native.Nat.{ℕ, zero, suc, ◌+◌, ◌≤◌}
use mathlib.Core.Path.{◌≡◌, refl, sym, ap, ◌∙◌}
use mathlib.Core.Logic.{◌≢◌, ◌⊎◌, inl, inr}
use mathlib.Core.Bool.{false}
use mathlib.Core.List.{List, [], ◌∷◌, ◌++◌}
use mathlib.Core.Option.{some}
use native.Mathlib.Omega.{arith}
use poly_balance.Base.Tests.{◌==◌, Bool-cases}
use poly_balance.Base.Lists.{length, get_elem?, modify}

module _ {ℓ} {A : Type ℓ} (w : A → ℕ) where
  abbrev pub total : List A → ℕ
  total [] = 0
  total (x ∷ xs) = w x + total xs

  pub total-append : (xs ys : List A) → total (xs ++ ys) ≡ total xs + total ys
  total-append [] ys = omega arith
  total-append (x ∷ xs) ys = omega (arith, total-append xs ys)

  pub total-modify :
      (xs : List A) (k : ℕ) (a b : A)
      → get_elem? xs k ≡ some a
      → total (modify xs k (λ _. b)) + w a ≡ total xs + w b
  total-modify [] k a b at = ground arith
  total-modify (x ∷ xs) zero a b at = let same : x ≡ a = cc in omega (arith, ap w same)
  total-modify (x ∷ xs) (suc k) a b at = omega (arith, total-modify xs k a b at)

  pub total-le : ((a : A) → w a ≤ 1) → (xs : List A) → total xs ≤ length xs
  total-le small [] = omega arith
  total-le small (x ∷ xs) = omega (arith, small x, total-le small xs)

module _ {ℓ} {A : Type ℓ} where
  pub get_elem?-modify_same :
      (xs : List A) (j : ℕ) {a : A} (b : A)
      → get_elem? xs j ≡ some a
      → get_elem? (modify xs j (λ _. b)) j ≡ some b
  get_elem?-modify_same [] j b at = ground arith
  get_elem?-modify_same (x ∷ xs) zero b at = refl
  get_elem?-modify_same (x ∷ xs) (suc j) b at = get_elem?-modify_same xs j b at

  get_elem?-modify_other :
      (xs : List A) (i j : ℕ) (b : A) → i ≢ j → get_elem? (modify xs j (λ _. b)) i ≡ get_elem? xs i
  get_elem?-modify_other [] i j b h = refl
  get_elem?-modify_other (x ∷ xs) zero zero b h = absurd (h refl)
  get_elem?-modify_other (x ∷ xs) zero (suc j) b h = refl
  get_elem?-modify_other (x ∷ xs) (suc i) zero b h = refl
  get_elem?-modify_other (x ∷ xs) (suc i) (suc j) b h =
      get_elem?-modify_other xs i j b (λ e. h (ap suc e))

  -- What a read finds after a write.
  pub written-cases :
      (xs : List A) (i j : ℕ) {a : A} (b : A) {c : A}
      → get_elem? xs j ≡ some a
      → get_elem? (modify xs j (λ _. b)) i ≡ some c
      → ((i ≡ j) × (b ≡ c)) ⊎ ((i == j) ≡ false × (get_elem? xs i ≡ some c))
  written-cases xs i j {a} b {c} at read = elim (Bool-cases (i == j)) [
    | inl same ↦
        let e : i ≡ j = ground arith in
        let there : get_elem? (modify xs j (λ _. b)) j ≡ some c =
          ap (get_elem? (modify xs j (λ _. b))) (sym e) ∙ read in
        let found = get_elem?-modify_same xs j b at in inl (e, cc)
    | inr apart ↦ inr (apart, sym (get_elem?-modify_other xs i j b (λ e. ground arith)) ∙ read)
  ]
