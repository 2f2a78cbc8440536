-- ===== src/Base/Lists.antt =====
-- Lists measured and indexed by native numbers, and predicates on lists.
use Prim.Native.Nat.{ℕ, zero, suc, ◌+◌, ◌≤◌, ◌<◌}
use mathlib.Core.Path.{◌≡◌, refl, ap, subst}
use mathlib.Core.Bool.{Bool, true}
use mathlib.Core.List.{List, [], ◌∷◌, ◌++◌, map}
use mathlib.Core.Option.{Option, none, some}
use native.Mathlib.Omega.{arith}
use poly_balance.Base.Tests.{if◌then◌else◌}

module _ {ℓ} {A : Type ℓ} where
  abbrev pub length : List A → ℕ
  length [] = 0
  length (x ∷ xs) = suc (length xs)

  abbrev pub get_elem? : List A → ℕ → Option A
  get_elem? [] i = none
  get_elem? (x ∷ xs) zero = some x
  get_elem? (x ∷ xs) (suc i) = get_elem? xs i

  -- Replaces the element at a position; out of bounds nothing changes.
  abbrev pub modify : List A → ℕ → (A → A) → List A
  modify [] i f = []
  modify (x ∷ xs) zero f = f x ∷ xs
  modify (x ∷ xs) (suc i) f = x ∷ modify xs i f

  abbrev pub take : ℕ → List A → List A
  take zero xs = []
  take (suc n) [] = []
  take (suc n) (x ∷ xs) = x ∷ take n xs

  -- The elements that pass a Boolean test.
  abbrev pub keep_if : (A → Bool) → List A → List A
  keep_if p [] = []
  keep_if p (x ∷ xs) = if p x then x ∷ keep_if p xs else keep_if p xs

  abbrev pub All {κ} : (A → Type κ) → List A → Type κ
  All P [] = Unit
  All P (x ∷ xs) = P x × All P xs

module _ {ℓ} {A : Type ℓ} where
  pub length-append : (xs ys : List A) → length (xs ++ ys) ≡ length xs + length ys
  length-append [] ys = omega arith
  length-append (x ∷ xs) ys = omega (arith, length-append xs ys)

  pub get_elem?-lt : (xs : List A) (i : ℕ) {a : A} → get_elem? xs i ≡ some a → i < length xs
  get_elem?-lt [] i h = ground arith
  get_elem?-lt (x ∷ xs) zero h = omega arith
  get_elem?-lt (x ∷ xs) (suc i) h = omega (arith, get_elem?-lt xs i h)

  pub get_elem?-some : (xs : List A) (i : ℕ) → i < length xs → (a : A) × (get_elem? xs i ≡ some a)
  get_elem?-some [] i h = elim h [ ]
  get_elem?-some (x ∷ xs) zero h = (x, refl)
  get_elem?-some (x ∷ xs) (suc i) h = get_elem?-some xs i (omega arith)

  pub length-modify : (xs : List A) (i : ℕ) (f : A → A) → length (modify xs i f) ≡ length xs
  length-modify [] i f = refl
  length-modify (x ∷ xs) zero f = refl
  length-modify (x ∷ xs) (suc i) f = ap suc (length-modify xs i f)

  pub All-get {κ} :
      (P : A → Type κ) (xs : List A) (i : ℕ) {a : A} → All P xs → get_elem? xs i ≡ some a → P a
  All-get P [] i h e = ground arith
  All-get P (x ∷ xs) zero {a} h e = let same : x ≡ a = cc in subst P same h.0
  All-get P (x ∷ xs) (suc i) h e = All-get P xs i h.1 e

  pub All-modify {κ} :
      (P : A → Type κ) (xs : List A) (i : ℕ) (f : A → A)
      → ((a : A) → P a → P (f a))
      → All P xs
      → All P (modify xs i f)
  All-modify P [] i f k h = tt
  All-modify P (x ∷ xs) zero f k h = (k x h.0, h.1)
  All-modify P (x ∷ xs) (suc i) f k h = (h.0, All-modify P xs i f k h.1)

  pub keep_if-append :
      (p : A → Bool) (xs ys : List A) → keep_if p (xs ++ ys) ≡ keep_if p xs ++ keep_if p ys
  keep_if-append p [] ys = refl
  keep_if-append p (x ∷ xs) ys = ground (arith, keep_if-append p xs ys)

  pub length-keep_if-le : (p : A → Bool) (xs : List A) → length (keep_if p xs) ≤ length xs
  length-keep_if-le p [] = omega arith
  length-keep_if-le p (x ∷ xs) = ground (arith, length-keep_if-le p xs)

  -- Only the element that stands at the position has to be dealt with.
  pub All-modify_at {κ} :
      (P : A → Type κ) (xs : List A) (i : ℕ) (a b : A)
      → get_elem? xs i ≡ some a
      → (P a → P b)
      → All P xs
      → All P (modify xs i (λ _. b))
  All-modify_at P [] i a b e k h = tt
  All-modify_at P (x ∷ xs) zero a b e k h = let same : x ≡ a = cc in (k (subst P same h.0), h.1)
  All-modify_at P (x ∷ xs) (suc i) a b e k h = (h.0, All-modify_at P xs i a b e k h.1)

  pub map-modify_at {κ} :
      {B : Type κ} (f : A → B) (xs : List A) (i : ℕ) (a b : A)
      → get_elem? xs i ≡ some a
      → f b ≡ f a
      → map f (modify xs i (λ _. b)) ≡ map f xs
  map-modify_at f [] i a b e k = refl
  map-modify_at f (x ∷ xs) zero a b e k = let same : x ≡ a = cc in rw (same, k)
  map-modify_at f (x ∷ xs) (suc i) a b e k = rw (map-modify_at f xs i a b e k)

  -- A weaker test before a stronger one changes nothing.
  pub keep_if-keep_if :
      (p q : A → Bool) (xs : List A)
      → ((x : A) → p x ≡ true → q x ≡ true)
      → keep_if p (keep_if q xs) ≡ keep_if p xs
  keep_if-keep_if p q [] weaker = refl
  keep_if-keep_if p q (x ∷ xs) weaker = ground (arith, weaker x, keep_if-keep_if p q xs weaker)

  -- A stronger test keeps no more.
  pub length-keep_if_mono :
      (p q : A → Bool) (xs : List A)
      → ((x : A) → p x ≡ true → q x ≡ true)
      → length (keep_if p xs) ≤ length (keep_if q xs)
  length-keep_if_mono p q [] weaker = omega arith
  length-keep_if_mono p q (x ∷ xs) weaker =
      ground (arith, weaker x, length-keep_if_mono p q xs weaker)
