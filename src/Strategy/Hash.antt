-- ===== src/Strategy/Hash.antt =====
-- strategy/consistent_hash.go.
pub mod Search
pub mod Picks
pub mod Rebuilt
pub mod Ring
pub mod Owner
pub mod Insertion
mod Tests
use Prim.Native.String.{◌++◌, slice}
use poly_balance.Base.{
  ℕ, zero, suc, ◌+◌, ◌*◌, ◌/◌, ◌%◌, ◌≤◌, ◌<◌, ◌≡◌, String, Bool, true, false, not, Option, none,
  some, ℤ, pos, negsuc, leb_ℤ, List, [], ◌∷◌, ◌++◌ as append, ltb, leb, length, take, All,
  get_elem?, ◌==◌, ◌||◌, if◌then◌else◌,
}
use mathlib.Core.List.{Permᴰ}
use poly_balance.Url.{url_text}
use poly_balance.Text.{itoa}
use poly_balance.Backend.{Backend, check_circuit_state}

-- One virtual node: its place on the ring, and its backend's position.
pub record RingEntry : Type 0 where
  pub hash : ℕ
  pub idx : ℕ

pub record ConsistentHash : Type 0 where
  pub ring : List RingEntry
  pub virtual_nodes : ℕ

-- A non-positive number of virtual nodes becomes 50.
unfoldable pub new_consistent_hash : ℤ → ConsistentHash
new_consistent_hash (pos zero) = record { ring = []; virtual_nodes = 50 }
new_consistent_hash (pos (suc n)) = record { ring = []; virtual_nodes = suc n }
new_consistent_hash (negsuc n) = record { ring = []; virtual_nodes = 50 }

-- Neighbours on the ring are in order.
abbrev pub IsSorted : List RingEntry → Type 0
IsSorted [] = Unit
IsSorted (e ∷ []) = Unit
IsSorted (e ∷ f ∷ r) = (e.hash ≤ f.hash) × IsSorted (f ∷ r)

-- `sha256.Sum256` gives 32 bytes; `sort.Slice` by the hash gives the same entries in order, and
-- promises nothing of the order of equal hashes.
pub record Library : Type 0 where
  pub sha256 : String → List ℕ
  pub sha256_size : (s : String) → length (sha256 s) ≡ 32
  pub sha256_bytes : (s : String) → All (λ x. x < 256) (sha256 s)
  pub sort : List RingEntry → List RingEntry
  pub sort-IsSorted : (r : List RingEntry) → IsSorted (sort r)
  pub sort-perm : (r : List RingEntry) → Permᴰ (sort r) r

-- `binary.BigEndian.Uint64`, with the bytes read so far.
unfoldable pub big_endian : ℕ → List ℕ → ℕ
big_endian acc [] = acc
big_endian acc (x ∷ xs) = big_endian (acc * 256 + x) xs

-- The loop of `sort.Search`: the smallest index below `n` that passes, by bisection.
unfoldable pub search_loop : ℕ → (ℕ → Bool) → ℕ → ℕ → ℕ
search_loop zero passes i j = i
search_loop (suc fuel) passes i j =
    let h = (i + j) / 2 in
    let upper = search_loop fuel passes (h + 1) j in
    let lower = search_loop fuel passes i h in
    if ltb i j then (if passes h then lower else upper) else i

unfoldable pub search : ℕ → (ℕ → Bool) → ℕ
unfolding search_loop
search n passes = search_loop (n + 1) passes 0 n

-- How many entries the ring of these backends has.
unfoldable pub expected : ℕ → List Backend → ℕ → ℕ
expected virtual_nodes [] now = 0
expected virtual_nodes (b ∷ bs) now =
    (if check_circuit_state b now then virtual_nodes else 0) + expected virtual_nodes bs now

unfoldable pub validate_ring : ConsistentHash → List Backend → ℕ → Bool
unfolding expected
validate_ring c bs now = length c.ring == expected c.virtual_nodes bs now

abbrev pub hash_from : List RingEntry → ℕ → ℕ → Bool
hash_from ring h i = elim (get_elem? ring i) [ none ↦ false | some e ↦ leb h e.hash ]

-- The node that owns the hash `h`: the first at or after it, and else the first of the ring.
unfoldable pub owner : List RingEntry → ℕ → Option RingEntry
owner ring h =
    let i = search (length ring) (hash_from ring h) in
    get_elem? ring (if i == length ring then 0 else i)

module _ (lib : Library) where
  open lib use {sha256, sort}

  unfoldable pub hash_key : String → ℕ
  unfolding big_endian
  hash_key s = big_endian 0 (take 8 (sha256 s))

  -- The virtual nodes of one backend, from number `v`; `n` are to come.
  unfoldable pub nodes_of : Backend → ℕ → ℕ → ℕ → List RingEntry
  unfolding hash_key
  nodes_of b i v zero = []
  nodes_of b i v (suc n) =
      record { hash = hash_key (url_text b.url ++ ("#" ++ itoa v)); idx = i }
      ∷ nodes_of b i (v + 1) n

  -- The entries of the backends from position `i`, those in service only.
  unfoldable pub entries : ℕ → ℕ → ℕ → List Backend → List RingEntry
  unfolding nodes_of
  entries virtual_nodes now i [] = []
  entries virtual_nodes now i (b ∷ bs) =
      if check_circuit_state b now
      then append (nodes_of b i 0 virtual_nodes) (entries virtual_nodes now (i + 1) bs)
      else entries virtual_nodes now (i + 1) bs

  unfoldable pub build_ring : ConsistentHash → List Backend → ℕ → ConsistentHash
  unfolding entries
  build_ring c bs now = record c { ring = sort (entries c.virtual_nodes now 0 bs) }

  unfoldable pub pick : List RingEntry → ℕ → Option ℕ
  pick ring n = elim (owner ring (hash_key "default")) [
    | none ↦ none
    | some e ↦ if ltb e.idx n then some e.idx else none
  ]

  unfoldable pub refresh : ConsistentHash → List Backend → ℕ → ConsistentHash
  refresh c bs now =
      if length c.ring == 0 || not (validate_ring c bs now) then build_ring c bs now else c

  unfoldable pub next_backend : ConsistentHash → List Backend → ℕ → ConsistentHash × Option ℕ
  next_backend c bs now =
      if length bs == 0
      then (c, none)
      else (let c' = refresh c bs now in
          if length c'.ring == 0 then (c', none) else (c', pick c'.ring (length bs)))
