-- ===== src/Middleware/RateLimiter/Table.antt =====
-- The limiter's map from clients to times.
use poly_balance.Base.{
  ℕ, String, true, false, Bool-cases, inl, inr, ℤ, List, [], ◌∷◌, ◌==◌, ◌≡◌, refl, sym, ◌∙◌, subst,
  length, arith, str_eq, str_eq_iff, if◌then◌else◌,
}
use poly_balance.Middleware.RateLimiter.{times_of, put, prune, valid_times}

-- No entry has the key.
abbrev pub Absent : String → List (String × List ℕ) → Type 0
Absent k [] = Unit
Absent k ((j, times) ∷ m) = (str_eq j k ≡ false) × Absent k m

abbrev pub Distinct : List (String × List ℕ) → Type 0
Distinct [] = Unit
Distinct ((k, times) ∷ m) = Absent k m × Distinct m

pub times_of-put :
    (ip j : String) (times : List ℕ) (m : List (String × List ℕ))
    → times_of j (put ip times m) ≡ (if str_eq ip j then times else times_of j m)
unfolding times_of put
times_of-put ip j times [] = refl
times_of-put ip j times ((k, old) ∷ m) =
    ground (arith, str_eq_iff ip j, str_eq_iff k ip, str_eq_iff k j, times_of-put ip j times m)

put-Absent :
    (ip k : String) (times : List ℕ) (m : List (String × List ℕ))
    → str_eq ip k ≡ false
    → Absent k m
    → Absent k (put ip times m)
unfolding put
put-Absent ip k times [] ne a = (ne, tt)
put-Absent ip k times ((j, old) ∷ m) ne a = elim (Bool-cases (str_eq j ip)) [
  | inl hit ↦ rw hit (ne, a.1)
  | inr miss ↦ rw miss (a.0, put-Absent ip k times m ne a.1)
]

sym_ne : (s t : String) → str_eq s t ≡ false → str_eq t s ≡ false
sym_ne s t h = ground (arith, str_eq_iff s t, str_eq_iff t s)

pub put-Distinct :
    (ip : String) (times : List ℕ) (m : List (String × List ℕ))
    → Distinct m
    → Distinct (put ip times m)
unfolding put
put-Distinct ip times [] d = (tt, tt)
put-Distinct ip times ((k, old) ∷ m) d = elim (Bool-cases (str_eq k ip)) [
  | inl hit ↦
      rw hit (let e : k ≡ ip = (str_eq_iff k ip).0 hit in subst (λ j. Absent j m) e d.0, d.1)
  | inr miss ↦ rw miss (put-Absent ip k times m (sym_ne k ip miss) d.0, put-Distinct ip times m d.1)
]

prune-Absent :
    (window : ℤ) (now : ℕ) (k : String) (m : List (String × List ℕ))
    → Absent k m
    → Absent k (prune window now m)
unfolding prune
prune-Absent window now k [] a = tt
prune-Absent window now k ((j, times) ∷ m) a =
    elim (Bool-cases (length (valid_times window now times) == 0)) [
      | inl gone ↦ rw gone (prune-Absent window now k m a.1)
      | inr left ↦ rw left (a.0, prune-Absent window now k m a.1)
    ]

pub prune-Distinct :
    (window : ℤ) (now : ℕ) (m : List (String × List ℕ)) → Distinct m → Distinct (prune window now m)
unfolding prune
prune-Distinct window now [] d = tt
prune-Distinct window now ((j, times) ∷ m) d =
    elim (Bool-cases (length (valid_times window now times) == 0)) [
      | inl gone ↦ rw gone (prune-Distinct window now m d.1)
      | inr left ↦ rw left (prune-Absent window now j m d.0, prune-Distinct window now m d.1)
    ]

times_of-Absent : (k : String) (m : List (String × List ℕ)) → Absent k m → times_of k m ≡ []
unfolding times_of
times_of-Absent k [] a = refl
times_of-Absent k ((j, times) ∷ m) a = rw (a.0) (times_of-Absent k m a.1)

nothing_left : (l : List ℕ) → (length l == 0) ≡ true → l ≡ []
nothing_left [] h = refl
nothing_left (x ∷ l) h = absurd (ground arith)

-- Pruning leaves of each client's times those that are still valid.
pub times_of-prune :
    (window : ℤ) (now : ℕ) (ip : String) (m : List (String × List ℕ))
    → Distinct m
    → times_of ip (prune window now m) ≡ valid_times window now (times_of ip m)
unfolding prune times_of
times_of-prune window now ip [] d = refl
times_of-prune window now ip ((k, times) ∷ m) d = elim (Bool-cases (str_eq k ip)) [
  | inl hit ↦ elim (Bool-cases (length (valid_times window now times) == 0)) [
    | inl gone ↦
        rw (hit, gone)
          (let same : k ≡ ip = (str_eq_iff k ip).0 hit in
            times_of-Absent ip (prune window now m)
              (prune-Absent window now ip m (subst (λ j. Absent j m) same d.0))
            ∙ sym (nothing_left (valid_times window now times) gone))
    | inr left ↦ rw (hit, left) (rw hit)
  ]
  | inr miss ↦ elim (Bool-cases (length (valid_times window now times) == 0)) [
    | inl gone ↦ rw (miss, gone) (times_of-prune window now ip m d.1)
    | inr left ↦ rw (left, miss) (times_of-prune window now ip m d.1)
  ]
]
