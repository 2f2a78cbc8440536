-- ===== src/Http/Mux.antt =====
-- net/http's ServeMux, as cmd/main.go and cmd/backend/main.go use it: patterns that are a path, or a
-- tree of paths when they end in a slash. `clean` is the cleaning of a path by the package path.
use Prim.Native.Char.{code}
use Prim.Native.String.{String, [], ◌∷◌, ◌++◌}
use poly_balance.Base.{
  ℕ, ◌+◌, Bool, true, false, Option, none, some, List, [], ◌∷◌, ◌==◌, ltb, str_eq, if◌then◌else◌,
}
use poly_balance.Http.{Request, Writer, write_header, http_error, redirect}

unfoldable pub has_prefix : String → String → Bool
has_prefix [] s = true
has_prefix (c ∷ p) [] = false
has_prefix (c ∷ p) (d ∷ s) = let rest = has_prefix p s in if code c == code d then rest else false

unfoldable pub ends_in_slash : String → Bool
ends_in_slash [] = false
ends_in_slash (c ∷ []) = code c == b'/'
ends_in_slash (c ∷ d ∷ s) = ends_in_slash (d ∷ s)

unfoldable pub matches : String → String → Bool
unfolding has_prefix ends_in_slash
matches pattern path =
    if ends_in_slash pattern then has_prefix pattern path else str_eq pattern path

unfoldable pub size : String → ℕ
size [] = 0
size (c ∷ s) = size s + 1

-- The pattern that matches a path and is the longest of those that do.
unfoldable pub find {ℓ} : {A : Type ℓ} → String → List (String × A) → Option (String × A)
unfolding matches size
find path [] = none
find path ((pattern, a) ∷ routes) =
    let best = find path routes in
    if matches pattern path
    then elim best [
      | none ↦ some (pattern, a)
      | some (other, b) ↦
          if ltb (size pattern) (size other) then some (other, b) else some (pattern, a)
    ]
    else best

-- What the mux does with a request: its own answers, or the handler that is registered.
pub data Route {ℓ} (A : Type ℓ) : Type ℓ where
  bad_request not_found : Route A
  moved : String → Route A
  handled : A → Route A

unfoldable pub handler_at {ℓ} : {A : Type ℓ} → List (String × A) → String → Route A
unfolding find
handler_at routes path = elim (find path routes) [
  | none ↦ not_found
  | some (pattern, a) ↦ handled a
]

-- Where a request goes that asks for a path which is not clean.
unfoldable pub cleaned : (String → String) → Request → String
cleaned clean r =
    if str_eq r.raw_query "" then clean r.path else clean r.path ++ ("?" ++ r.raw_query)

unfoldable pub route {ℓ} : {A : Type ℓ} → (String → String) → List (String × A) → Request → Route A
unfolding handler_at cleaned
route clean routes r =
    if str_eq r.uri "*"
    then bad_request
    else if str_eq r.method "CONNECT"
    then handler_at routes r.path
    else if str_eq (clean r.path) r.path
    then handler_at routes r.path
    else moved (cleaned clean r)

-- The handler that a route leads to, on a state and a writer, and the mux's own answers.
unfoldable pub follow {ℓ} :
    {A : Type ℓ} {S : Type 0}
    → (String → String)
    → (A → S × Writer → S × Writer)
    → Request
    → Route A
    → S × Writer
    → S × Writer
follow page serve r bad_request (s, w) = (s, write_header 400 w)
follow page serve r not_found (s, w) = (s, http_error "404 page not found" 404 w)
follow page serve r (moved target) (s, w) = (s, redirect page r target 301 w)
follow page serve r (handled a) (s, w) = serve a (s, w)
