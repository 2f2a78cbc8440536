-- ===== src/Strategy/Hash/Owner.antt =====
-- Which virtual node the lookup in strategy/consistent_hash.go finds.
use poly_balance.Base.{
  ℕ, zero, suc, ◌≤◌, ◌≡◌, refl, ◌∙◌, Bool-cases, inl, inr, Option, none, some, List, [], ◌∷◌,
  length, get_elem?, get_elem?-some, leb, leb→le, le→leb, ◌==◌, if◌then◌else◌, arith,
}
use poly_balance.Strategy.Hash.{RingEntry, IsSorted, search, hash_from, owner}
use poly_balance.Strategy.Hash.Search.{Splits, Rises, search-Splits}

-- The first node whose hash is not below `h`, by a scan from the start.
abbrev pub first_at : List RingEntry → ℕ → Option RingEntry
first_at [] h = none
first_at (e ∷ r) h = if leb h e.hash then some e else first_at r h

-- The owner of `h` on the circle: the first node at or after it, or else the first of all.
abbrev pub successor : List RingEntry → ℕ → Option RingEntry
successor ring h = elim (first_at ring h) [ none ↦ get_elem? ring 0 | some e ↦ some e ]

sorted-Rises :
    (ring : List RingEntry) (h : ℕ) → IsSorted ring → Rises (length ring) (hash_from ring h)
sorted-Rises [] h s k l a b p = absurd (omega arith)
sorted-Rises (e ∷ []) h s zero zero a b p = p
sorted-Rises (e ∷ []) h s zero (suc l) a b p = absurd (omega arith)
sorted-Rises (e ∷ []) h s (suc k) l a b p = absurd (omega arith)
sorted-Rises (e ∷ f ∷ r) h s zero zero a b p = p
sorted-Rises (e ∷ f ∷ r) h s (suc k) zero a b p = absurd (omega arith)
sorted-Rises (e ∷ f ∷ r) h s zero (suc l) a b p =
    sorted-Rises (f ∷ r) h s.1 zero l (omega arith) (omega arith)
      (let below = leb→le h e.hash p in le→leb h f.hash (let step = s.0 in omega arith))
sorted-Rises (e ∷ f ∷ r) h s (suc k) (suc l) a b p =
    sorted-Rises (f ∷ r) h s.1 k l (omega arith) (omega arith) p

-- Where the test splits the ring, there the first node stands.
first_at-split :
    (ring : List RingEntry) (h i : ℕ)
    → Splits (length ring) (hash_from ring h) i i
    → first_at ring h ≡ get_elem? ring i
first_at-split [] h i s = refl
first_at-split (e ∷ r) h zero s = rw (s.1 0 (omega arith) (omega arith)) refl
first_at-split (e ∷ r) h (suc i) s = rw (s.0 0 (omega arith)) (
    first_at-split r h i (
      (λ k below. s.0 (suc k) (omega arith)),
      λ k from inside. s.1 (suc k) (omega arith) (omega arith),
    ))

past_end {ℓ} : {A : Type ℓ} (xs : List A) → get_elem? xs (length xs) ≡ none
past_end [] = refl
past_end (x ∷ xs) = past_end xs

-- The wrap-around of the lookup, for the position that the search gives.
wrapped :
    (ring : List RingEntry) (h i : ℕ)
    → i ≤ length ring
    → first_at ring h ≡ get_elem? ring i
    → get_elem? ring (if i == length ring then 0 else i) ≡ successor ring h
wrapped ring h i inside found = elim (Bool-cases (i == length ring)) [
  | inl at_end ↦
      let e : i ≡ length ring = ground arith in
      let nobody : first_at ring h ≡ none = found ∙ (rw e (past_end ring)) in
      rw (at_end, nobody, successor) refl
  | inr before ↦
      let (e, here) = get_elem?-some ring i (ground arith) in
      rw (before, found, here, successor) refl
]

-- On a ring in order, the lookup finds the first node at or after the hash, and the ring's first
-- node if there is none.
pub owner-successor :
    (ring : List RingEntry) (h : ℕ) → IsSorted ring → owner ring h ≡ successor ring h
unfolding owner
owner-successor ring h s =
    let (inside, splits) = search-Splits (length ring) (hash_from ring h) (sorted-Rises ring h s) in
    let i = search (length ring) (hash_from ring h) in
    wrapped ring h i inside (first_at-split ring h i splits)
