-- ===== src/Strategy/Hash/Rebuilt.antt =====
-- What strategy/consistent_hash.go picks when it has just built its ring.
use poly_balance.Base.{
  ℕ, zero, suc, ◌<◌, ◌≡◌, refl, ◌∙◌, ◌⊎◌, then_branch, else_branch, sym, ap, subst, true, false,
  not, ◌||◌, Bool-cases, inl, inr, Option, none, some, Option-cases, List, [], ◌∷◌, length, All,
  ltb, leb, ◌==◌, arith,
}
use poly_balance.Backend.{Backend, check_circuit_state}
use poly_balance.Strategy.Avail.{available}
use poly_balance.Strategy.Hash.{
  RingEntry, ConsistentHash, Library, expected, build_ring, refresh, validate_ring, pick, hash_key,
  next_backend,
}
use poly_balance.Strategy.Hash.Owner.{first_at, successor, owner-successor}
use poly_balance.Strategy.Hash.Ring.{built-length, built-Points, built-IsSorted}
use poly_balance.Strategy.Hash.Picks.{within, pick-within, pick-empty, next_backend-refresh}

-- Nothing is picked only if no backend is routed to, and what is picked is routed to.
abbrev pub Routed : List Backend → ℕ → Option ℕ → Type 0
Routed bs now none = (i : ℕ) → available bs now i ≡ false
Routed bs now (some i) = available bs now i ≡ true

first_at-All :
    (P : RingEntry → Type 0) (ring : List RingEntry) (h : ℕ) {e : RingEntry}
    → All P ring
    → first_at ring h ≡ some e
    → P e
first_at-All P [] h a s = ground arith
first_at-All P (f ∷ r) h {e} a s = elim (Bool-cases (leb h f.hash)) [
  | inl found ↦
      let top : first_at (f ∷ r) h ≡ some f = then_branch (leb h f.hash) _ _ found in
      let here : f ≡ e = cc in subst P here a.0
  | inr later ↦
      first_at-All P r h a.1 (sym (else_branch (leb h f.hash) (some f) (first_at r h) later) ∙ s)
]

successor-All :
    (P : RingEntry → Type 0) (ring : List RingEntry) (h : ℕ)
    → All P ring
    → (ring ≡ []) ⊎ ((e : RingEntry) × (successor ring h ≡ some e) × P e)
successor-All P [] h a = inl refl
successor-All P (f ∷ r) h a = elim (Option-cases (first_at (f ∷ r) h)) [
  | inl nobody ↦ inr (f, rw (nobody, successor) refl, a.0)
  | inr (e, found) ↦ inr (e, rw (found, successor) refl, first_at-All P (f ∷ r) h a found)
]

nobody_expected :
    (vn : ℕ) (bs : List Backend) (now : ℕ)
    → 0 < vn
    → expected vn bs now ≡ 0
    → (i : ℕ) → available bs now i ≡ false
unfolding expected available
nobody_expected vn [] now p h i = refl
nobody_expected vn (b ∷ bs) now p h zero = elim (Bool-cases (check_circuit_state b now)) [
  | inl up ↦ ground arith
  | inr down ↦ down
]
nobody_expected vn (b ∷ bs) now p h (suc i) = nobody_expected vn bs now p (ground arith) i

available-inside : (bs : List Backend) (now i : ℕ) → available bs now i ≡ true → i < length bs
unfolding available
available-inside [] now i h = ground arith
available-inside (b ∷ bs) now zero h = omega arith
available-inside (b ∷ bs) now (suc i) h = omega (arith, available-inside bs now i h)

module _ (lib : Library) where
  built_pick :
      (c : ConsistentHash) (bs : List Backend) (now : ℕ)
      → 0 < c.virtual_nodes
      → Routed bs now (pick lib (build_ring lib c bs now).ring (length bs))
  built_pick c bs now p =
      let ring = (build_ring lib c bs now).ring in
      let key = hash_key lib "default" in
      let sorted = built-IsSorted lib c bs now in
      let chosen : pick lib ring (length bs) ≡ within (length bs) (successor ring key) =
        pick-within lib ring (length bs)
        ∙ ap (within (length bs)) (owner-successor ring key sorted) in
      elim (successor-All (λ e. available bs now e.idx ≡ true) ring key
        (built-Points lib c bs now)) [
          | inl empty ↦
              let nothing : pick lib ring (length bs) ≡ none =
                ap (λ r. pick lib r (length bs)) empty ∙ pick-empty lib (length bs) in
              let nobody : expected c.virtual_nodes bs now ≡ 0 =
                sym (built-length lib c bs now) ∙ ap length empty in
              subst (Routed bs now) (sym nothing) (nobody_expected c.virtual_nodes bs now p nobody)
          | inr (e, found, up) ↦
              let inside = available-inside bs now e.idx up in
              let picked : pick lib ring (length bs) ≡ some e.idx =
                chosen
                ∙ ap (within (length bs)) found
                ∙ then_branch (ltb e.idx (length bs)) _ _ (ground arith) in
              subst (Routed bs now) (sym picked) up
        ]

  -- A call that rebuilds the ring picks a backend that is routed to, or finds that none is.
  pub rebuilt-Routed :
      (c : ConsistentHash) (bs : List Backend) (now : ℕ)
      → 0 < c.virtual_nodes
      → (length c.ring == 0 || not (validate_ring c bs now)) ≡ true
      → Routed bs now (next_backend lib c bs now).1
  unfolding next_backend refresh available
  rebuilt-Routed c [] now p old = λ i. refl
  rebuilt-Routed c (b ∷ bs) now p old =
      let e = next_backend-refresh lib c (b ∷ bs) now (omega arith) in
      rw (e, old) (built_pick c (b ∷ bs) now p)
