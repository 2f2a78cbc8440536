-- ===== src/Strategy/Hash/Picks.antt =====
-- Which backend the ring of strategy/consistent_hash.go picks, and how the pick changes.
use poly_balance.Base.{
  ℕ, ◌<◌, ◌≡◌, refl, ◌∙◌, sym, ap, true, false, not, ◌||◌, Bool-cases, inl, inr, Option, none, some,
  Option-cases, List, [], ◌∷◌, length, ltb, ◌==◌, if◌then◌else◌, arith,
}
use poly_balance.Backend.{Backend}
use poly_balance.Strategy.Hash.{
  RingEntry, ConsistentHash, Library, IsSorted, expected, build_ring, refresh, validate_ring, pick,
  owner, hash_key, next_backend,
}
use poly_balance.Strategy.Hash.Owner.{successor, owner-successor}
use poly_balance.Strategy.Hash.Ring.{built-length, built-IsSorted}

no_entries {ℓ} : {A : Type ℓ} (xs : List A) → length xs ≡ 0 → xs ≡ []
no_entries [] h = refl
no_entries (x ∷ xs) h = absurd (omega arith)

-- A node's position, if it is one of `n`.
abbrev pub within : ℕ → Option RingEntry → Option ℕ
within n none = none
within n (some e) = if ltb e.idx n then some e.idx else none

within-none : (o : Option RingEntry) → within 0 o ≡ none
within-none none = refl
within-none (some e) = ground arith

module _ (lib : Library) where
  pub pick-within :
      (ring : List RingEntry) (n : ℕ)
      → pick lib ring n ≡ within n (owner ring (hash_key lib "default"))
  unfolding pick
  pick-within ring n = elim (Option-cases (owner ring (hash_key lib "default"))) [
    | inl nobody ↦ rw (nobody, pick) refl
    | inr (e, found) ↦ rw (found, pick) refl
  ]

  pub pick-empty : (n : ℕ) → pick lib [] n ≡ none
  unfolding owner
  pick-empty n = pick-within [] n

  -- The call in one equation: the ring is refreshed and its pick taken.
  pub next_backend-refresh :
      (c : ConsistentHash) (bs : List Backend) (now : ℕ)
      → 0 < length bs
      → next_backend lib c bs now
        ≡ (refresh lib c bs now, pick lib (refresh lib c bs now).ring (length bs))
  unfolding next_backend
  next_backend-refresh c bs now p =
      let full : (length bs == 0) ≡ false = ground arith in
      rw full (elim (Bool-cases (length (refresh lib c bs now).ring == 0)) [
        | inl empty ↦
            let nothing = no_entries (refresh lib c bs now).ring (ground arith) in
            rw empty (
              ap (λ r. (refresh lib c bs now, r))
                (sym (ap (λ ring. pick lib ring (length bs)) nothing ∙ pick-empty (length bs))))
        | inr some_left ↦ rw some_left refl
      ])

  refresh-length :
      (c : ConsistentHash) (bs : List Backend) (now : ℕ)
      → length (refresh lib c bs now).ring ≡ expected c.virtual_nodes bs now
  unfolding refresh validate_ring
  refresh-length c bs now = elim (Bool-cases (length c.ring == 0 || not (validate_ring c bs now))) [
    | inl old ↦ rw old (built-length lib c bs now)
    | inr valid ↦ rw valid (ground arith)
  ]

  refresh-nodes :
      (c : ConsistentHash) (bs : List Backend) (now : ℕ)
      → (refresh lib c bs now).virtual_nodes ≡ c.virtual_nodes
  unfolding refresh build_ring
  refresh-nodes c bs now = elim (Bool-cases (length c.ring == 0 || not (validate_ring c bs now))) [
    | inl old ↦ rw old refl
    | inr valid ↦ rw valid refl
  ]

  refresh-IsSorted :
      (c : ConsistentHash) (bs : List Backend) (now : ℕ)
      → IsSorted c.ring
      → IsSorted (refresh lib c bs now).ring
  unfolding refresh
  refresh-IsSorted c bs now s =
      elim (Bool-cases (length c.ring == 0 || not (validate_ring c bs now))) [
        | inl old ↦ rw old (built-IsSorted lib c bs now)
        | inr valid ↦ rw valid s
      ]

  -- The ring stays in order, and the pick is the owner of the constant key on it.
  pub next_backend-successor :
      (c : ConsistentHash) (bs : List Backend) (now : ℕ)
      → 0 < length bs
      → IsSorted c.ring
      → (IsSorted (next_backend lib c bs now).0.ring)
        × ((next_backend lib c bs now).1
            ≡ within
                (length bs)
                (successor (next_backend lib c bs now).0.ring (hash_key lib "default")))
  next_backend-successor c bs now p s =
      let sorted = refresh-IsSorted c bs now s in
      let ring = (refresh lib c bs now).ring in
      rw (next_backend-refresh c bs now p) (
        sorted,
        pick-within ring (length bs) ∙ ap (within (length bs)) (owner-successor ring _ sorted),
      )

  refresh_again :
      (c : ConsistentHash) (bs : List Backend) (now : ℕ)
      → length c.ring ≡ expected c.virtual_nodes bs now
      → (refresh lib c bs now).ring ≡ c.ring
  unfolding refresh validate_ring
  refresh_again c bs now h = elim (Bool-cases (length c.ring == 0)) [
    | inl empty ↦
        let built : (build_ring lib c bs now).ring ≡ [] =
          no_entries _ (built-length lib c bs now ∙ sym h ∙ ground arith) in
        rw empty (built ∙ sym (no_entries c.ring (ground arith)))
    | inr full ↦
        let valid : (length c.ring == expected c.virtual_nodes bs now) ≡ true = ground arith in
        rw (full, valid) refl
  ]

  -- As long as the number of backends that are routed to stays the same, so does the pick, whichever
  -- backends they are.
  pub same_count_same_pick :
      (c : ConsistentHash) (bs bs' : List Backend) (now now' : ℕ)
      → length bs' ≡ length bs
      → expected c.virtual_nodes bs' now' ≡ expected c.virtual_nodes bs now
      → (next_backend lib (next_backend lib c bs now).0 bs' now').1 ≡ (next_backend lib c bs now).1
  unfolding next_backend
  same_count_same_pick c [] [] now now' l h = refl
  same_count_same_pick c [] (b' ∷ bs') now now' l h = absurd (omega arith)
  same_count_same_pick c (b ∷ bs) bs' now now' l h =
      let d = refresh lib c (b ∷ bs) now in
      let count : length d.ring ≡ expected d.virtual_nodes bs' now' =
        refresh-length c (b ∷ bs) now
        ∙ sym h
        ∙ ap (λ v. expected v bs' now') (sym (refresh-nodes c (b ∷ bs) now)) in
      rw
        (
          next_backend-refresh c (b ∷ bs) now (omega arith),
          next_backend-refresh d bs' now' (omega arith),
        )
        (rw (refresh_again d bs' now' count, l) refl)
