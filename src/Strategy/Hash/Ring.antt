-- ===== src/Strategy/Hash/Ring.antt =====
-- What the ring built by strategy/consistent_hash.go holds.
use mathlib.Core.List.{Permᴰ}
use poly_balance.Base.{
  ℕ, zero, suc, ◌+◌, ◌≡◌, refl, ◌∙◌, sym, ap, subst, true, Bool-cases, inl, inr, some, List, [],
  ◌∷◌, ◌++◌, length, length-append, All, get_elem?, arith,
}
use poly_balance.Backend.{Backend, check_circuit_state}
use poly_balance.Strategy.Avail.{available}
use poly_balance.Strategy.Hash.{
  RingEntry, ConsistentHash, Library, IsSorted, nodes_of, entries, expected, build_ring,
}

All-append {ℓ κ} :
    {A : Type ℓ} (P : A → Type κ) (xs ys : List A) → All P xs → All P ys → All P (xs ++ ys)
All-append P [] ys h k = k
All-append P (x ∷ xs) ys h k = (h.0, All-append P xs ys h.1 k)

All-perm {ℓ κ} : {A : Type ℓ} (P : A → Type κ) {xs ys : List A} → Permᴰ xs ys → All P ys → All P xs
All-perm P Permᴰ.nil h = tt
All-perm P (Permᴰ.cons e p) h = (subst P (sym e) h.0, All-perm P p h.1)
All-perm P (Permᴰ.swap e f) h = (subst P (sym e) h.1.0, (subst P (sym f) h.0, h.1.1))
All-perm P (Permᴰ.trans p q) h = All-perm P p (All-perm P q h)

length-perm {ℓ} : {A : Type ℓ} {xs ys : List A} → Permᴰ xs ys → length xs ≡ length ys
length-perm Permᴰ.nil = refl
length-perm (Permᴰ.cons e p) = ap suc (length-perm p)
length-perm (Permᴰ.swap e f) = refl
length-perm (Permᴰ.trans p q) = length-perm p ∙ length-perm q

-- The entries point to backends that are routed to.
abbrev pub Points : List Backend → ℕ → List RingEntry → Type 0
Points bs now ring = All (λ e. available bs now e.idx ≡ true) ring

module _ (lib : Library) where
  open lib use {sort, sort-perm, sort-IsSorted}

  length-nodes : (b : Backend) (i v n : ℕ) → length (nodes_of lib b i v n) ≡ n
  unfolding nodes_of
  length-nodes b i v zero = refl
  length-nodes b i v (suc n) = ap suc (length-nodes b i (v + 1) n)

  All-nodes :
      (P : ℕ → Type 0) (b : Backend) (i v n : ℕ) → P i → All (λ e. P e.idx) (nodes_of lib b i v n)
  unfolding nodes_of
  All-nodes P b i v zero h = tt
  All-nodes P b i v (suc n) h = (h, All-nodes P b i (v + 1) n h)

  length-entries :
      (vn now i : ℕ) (bs : List Backend) → length (entries lib vn now i bs) ≡ expected vn bs now
  unfolding entries expected
  length-entries vn now i [] = refl
  length-entries vn now i (b ∷ bs) = elim (Bool-cases (check_circuit_state b now)) [
    | inl up ↦ rw up (
        length-append (nodes_of lib b i 0 vn) (entries lib vn now (i + 1) bs)
        ∙ rw (length-nodes b i 0 vn, length-entries vn now (i + 1) bs) refl)
    | inr down ↦ rw down (omega (arith, length-entries vn now (i + 1) bs))
  ]

  entries-Points :
      (vn now i : ℕ) (bs all : List Backend)
      → ((k : ℕ) → get_elem? all (i + k) ≡ get_elem? bs k)
      → Points all now (entries lib vn now i bs)
  unfolding entries available
  entries-Points vn now i [] all place = tt
  entries-Points vn now i (b ∷ bs) all place =
      let here : get_elem? all i ≡ some b = ap (get_elem? all) (omega arith) ∙ place 0 in
      let rest =
        entries-Points vn now (i + 1) bs all
          (λ k. ap (get_elem? all) (omega arith) ∙ place (suc k)) in
      elim (Bool-cases (check_circuit_state b now)) [
        | inl up ↦ rw up (
            All-append _ (nodes_of lib b i 0 vn) (entries lib vn now (i + 1) bs)
              (All-nodes (λ k. available all now k ≡ true) b i 0 vn (rw (here, available) up)) rest)
        | inr down ↦ rw down rest
      ]

  -- A ring just built has the expected number of entries, is in order, and points only to backends
  -- that are routed to.
  pub built-length :
      (c : ConsistentHash) (bs : List Backend) (now : ℕ)
      → length (build_ring lib c bs now).ring ≡ expected c.virtual_nodes bs now
  unfolding build_ring
  built-length c bs now =
      length-perm (sort-perm (entries lib c.virtual_nodes now 0 bs))
      ∙ length-entries c.virtual_nodes now 0 bs

  pub built-IsSorted :
      (c : ConsistentHash) (bs : List Backend) (now : ℕ) → IsSorted (build_ring lib c bs now).ring
  unfolding build_ring
  built-IsSorted c bs now = sort-IsSorted (entries lib c.virtual_nodes now 0 bs)

  pub built-Points :
      (c : ConsistentHash) (bs : List Backend) (now : ℕ)
      → Points bs now (build_ring lib c bs now).ring
  unfolding build_ring
  built-Points c bs now =
      All-perm _ (sort-perm (entries lib c.virtual_nodes now 0 bs))
        (entries-Points c.virtual_nodes now 0 bs bs (λ k. ap (get_elem? bs) (omega arith)))
