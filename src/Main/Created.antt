-- ===== src/Main/Created.antt =====
-- The backends that cmd/main.go creates.
use mathlib.Core.Option
use poly_balance.Base.{ℕ, ◌+◌, ◌≡◌, String, Option, none, some, ℤ, List, [], ◌∷◌, get_elem?}
use poly_balance.Url.{Url}
use poly_balance.Backend.{Backend, fresh}
use poly_balance.Main.{weight_at}

-- One new backend for every URL, in order, with the weight of its position; or a text that is no URL.
abbrev pub Created :
    (String → Option Url) → List ℤ → ℕ → List String → Option (List Backend) → Type 0
Created parse weights i urls none =
    (k : ℕ) × (raw : String) × (get_elem? urls k ≡ some raw) × (parse raw ≡ none)
Created parse weights i [] (some []) = Unit
Created parse weights i [] (some (b ∷ bs)) = ⊥
Created parse weights i (raw ∷ urls) (some []) = ⊥
Created parse weights i (raw ∷ urls) (some (b ∷ bs)) =
    (parse raw ≡ some b.url)
    × (b ≡ fresh b.url (weight_at weights i))
    × Created parse weights (i + 1) urls (some bs)
