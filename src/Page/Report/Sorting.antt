-- ===== src/Page/Report/Sorting.antt =====
-- ui/dashboard.go: the order in which `sendTestRequests` of the page lists the backends.
use poly_balance.Base.{
  ℕ, ◌+◌, ◌≤◌, ◌<◌, ◌≡◌, refl, ◌∙◌, String, false, Bool-cases, inl, inr, List, [], ◌∷◌, ltb, str_eq,
  str_eq_iff, if◌then◌else◌, All, arith,
}
use poly_balance.Page.Report.{insert, sort}

-- The sum of the counts, and of those under a name.
abbrev pub total : List (String × ℕ) → ℕ
total [] = 0
total ((key, n) ∷ xs) = n + total xs

abbrev pub tallied : String → List (String × ℕ) → ℕ
tallied name [] = 0
tallied name ((key, n) ∷ xs) = (if str_eq key name then n else 0) + tallied name xs

-- No entry has this name; no two entries have the same; every count is positive.
abbrev pub Lacks : String → List (String × ℕ) → Type 0
Lacks name xs = All (λ x. str_eq x.0 name ≡ false) xs

abbrev pub IsDistinct : List (String × ℕ) → Type 0
IsDistinct [] = Unit
IsDistinct ((key, n) ∷ xs) = Lacks key xs × IsDistinct xs

abbrev pub ArePositive : List (String × ℕ) → Type 0
ArePositive xs = All (λ x. 0 < x.1) xs

abbrev pub AreAtMost : ℕ → List (String × ℕ) → Type 0
AreAtMost m xs = All (λ x. x.1 ≤ m) xs

-- From the highest count to the lowest.
abbrev pub IsDescending : List (String × ℕ) → Type 0
IsDescending [] = Unit
IsDescending (x ∷ xs) = AreAtMost x.1 xs × IsDescending xs

pub swap_names : (s t : String) → str_eq s t ≡ false → str_eq t s ≡ false
swap_names s t h = ground (arith, str_eq_iff s t, str_eq_iff t s)

insert-total : (x : String × ℕ) (xs : List (String × ℕ)) → total (insert x xs) ≡ x.1 + total xs
unfolding insert
insert-total x [] = refl
insert-total x (y ∷ ys) = ground (arith, insert-total x ys)

insert-tallied :
    (name : String) (x : String × ℕ) (xs : List (String × ℕ))
    → tallied name (insert x xs) ≡ tallied name (x ∷ xs)
unfolding insert
insert-tallied name x [] = refl
insert-tallied name x (y ∷ ys) = ground (arith, insert-tallied name x ys)

-- What holds of every entry holds after an insertion.
insert-All :
    (P : String × ℕ → Type 0) (x : String × ℕ) (xs : List (String × ℕ))
    → P x
    → All P xs
    → All P (insert x xs)
unfolding insert
insert-All P x [] p h = (p, tt)
insert-All P x (y ∷ ys) p h = elim (Bool-cases (ltb x.1 y.1)) [
  | inl before ↦ rw before (h.0, insert-All P x ys p h.1)
  | inr here ↦ rw here (p, h)
]

insert-IsDistinct :
    (x : String × ℕ) (xs : List (String × ℕ))
    → Lacks x.0 xs
    → IsDistinct xs
    → IsDistinct (insert x xs)
unfolding insert
insert-IsDistinct x [] l h = (tt, tt)
insert-IsDistinct x (y ∷ ys) l h = elim (Bool-cases (ltb x.1 y.1)) [
  | inl before ↦ rw before (
    insert-All (λ z. str_eq z.0 y.0 ≡ false) x ys (swap_names y.0 x.0 l.0) h.0,
    insert-IsDistinct x ys l.1 h.1,
  )
  | inr here ↦ rw here (l, h)
]

at_most_mono : (m k : ℕ) (xs : List (String × ℕ)) → k ≤ m → AreAtMost k xs → AreAtMost m xs
at_most_mono m k [] h a = tt
at_most_mono m k (x ∷ xs) h a = (omega arith, at_most_mono m k xs h a.1)

insert-IsDescending :
    (x : String × ℕ) (xs : List (String × ℕ)) → IsDescending xs → IsDescending (insert x xs)
unfolding insert
insert-IsDescending x [] h = (tt, tt)
insert-IsDescending x (y ∷ ys) h = elim (Bool-cases (ltb x.1 y.1)) [
  | inl before ↦
      rw before (insert-All (λ z. z.1 ≤ y.1) x ys (ground arith) h.0, insert-IsDescending x ys h.1)
  | inr here ↦
      let least : y.1 ≤ x.1 = ground arith in
      rw here ((least, at_most_mono x.1 y.1 ys least h.0), h)
]

pub sort-total : (xs : List (String × ℕ)) → total (sort xs) ≡ total xs
unfolding sort
sort-total [] = refl
sort-total (x ∷ xs) = insert-total x (sort xs) ∙ omega (arith, sort-total xs)

pub sort-tallied :
    (name : String) (xs : List (String × ℕ)) → tallied name (sort xs) ≡ tallied name xs
unfolding sort
sort-tallied name [] = refl
sort-tallied name (x ∷ xs) = insert-tallied name x (sort xs) ∙ omega (arith, sort-tallied name xs)

pub sort-All : (P : String × ℕ → Type 0) (xs : List (String × ℕ)) → All P xs → All P (sort xs)
unfolding sort
sort-All P [] h = tt
sort-All P (x ∷ xs) h = insert-All P x (sort xs) h.0 (sort-All P xs h.1)

pub sort-IsDistinct : (xs : List (String × ℕ)) → IsDistinct xs → IsDistinct (sort xs)
unfolding sort
sort-IsDistinct [] h = tt
sort-IsDistinct (x ∷ xs) h =
    insert-IsDistinct x (sort xs) (sort-All (λ z. str_eq z.0 x.0 ≡ false) xs h.0)
      (sort-IsDistinct xs h.1)

pub sort-IsDescending : (xs : List (String × ℕ)) → IsDescending (sort xs)
unfolding sort
sort-IsDescending [] = tt
sort-IsDescending (x ∷ xs) = insert-IsDescending x (sort xs) (sort-IsDescending xs)
