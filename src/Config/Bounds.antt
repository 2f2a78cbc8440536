-- ===== src/Config/Bounds.antt =====
-- Which settings internal/config.go lets through.
use Prim.Native.Char.{Char, code}
use Prim.Native.String.{[], ◌∷◌}
use poly_balance.Base.{
  ℕ, suc, ◌<◌, ◌≡◌, ◌≢◌, refl, String, Bool, true, false, Bool-cases, inl, inr, Option, none, some,
  ℤ, pos, negsuc, ◌≤ℤ◌, max_int64, List, [], ◌∷◌, map, length, All, ◌==◌, str_eq, str_eq_iff, arith,
  if◌then◌else◌, leb,
}
use poly_balance.Text.{
  atoi, magnitude, in_int64, negated_int64, split_comma, cons_first, trim_space,
}
use poly_balance.Config.{
  Config, parse_csv, int_or_one, parse_int_csv, get_parsed, get_int, get_int64, get_env,
  read_config, load_config,
}

abbrev pub IsInt64 : ℤ → Type 0
IsInt64 n = (negsuc max_int64 ≤ℤ n) × (n ≤ℤ pos max_int64)

abbrev Fits : Option ℤ → Type 0
Fits none = Unit
Fits (some n) = IsInt64 n

in_int64-Fits : (o : Option ℕ) → Fits (in_int64 o)
in_int64-Fits none = tt
in_int64-Fits (some n) = elim (Bool-cases (leb n max_int64)) [
  | inl small ↦ rw small (ground arith)
  | inr large ↦ rw large tt
]

negated_int64-Fits : (o : Option ℕ) → Fits (negated_int64 o)
negated_int64-Fits none = tt
negated_int64-Fits (some n) = elim (Bool-cases (leb n (suc max_int64))) [
  | inl small ↦ rw small (ground arith)
  | inr large ↦ rw large tt
]

atoi-Fits : (s : String) → Fits (atoi s)
unfolding atoi
atoi-Fits [] = tt
atoi-Fits (c ∷ s) = elim (Bool-cases (code c == b'-')) [
  | inl minus ↦ rw minus (negated_int64-Fits (magnitude s))
  | inr plain ↦ rw plain (in_int64-Fits (magnitude (if code c == b'+' then s else c ∷ s)))
]

-- What a parsing getter returns comes from the parser or is the default.
parsed_or_default :
    (o : Option ℤ) (def : ℤ) → Fits o → IsInt64 def → IsInt64 (elim o [ none ↦ def | some n ↦ n ])
parsed_or_default none def r d = d
parsed_or_default (some n) def r d = r

get_int-IsInt64 :
    (getenv : String → String) (key : String) (def : ℤ)
    → IsInt64 def
    → IsInt64 (get_int getenv key def)
unfolding get_int get_parsed
get_int-IsInt64 getenv key def d = elim (Bool-cases (str_eq (getenv key) "")) [
  | inl unset ↦ rw unset d
  | inr value ↦ rw value (parsed_or_default (atoi (getenv key)) def (atoi-Fits (getenv key)) d)
]

get_int64-IsInt64 :
    (getenv : String → String) (key : String) (def : ℤ)
    → IsInt64 def
    → IsInt64 (get_int64 getenv key def)
unfolding get_int64 get_int
get_int64-IsInt64 getenv key def d = get_int-IsInt64 getenv key def d

equal_zero : {n : ℕ} → n ≡ 0 → (n == 0) ≡ true
equal_zero h = ground arith

tested : {b : Bool} → b ≡ false → b ≡ true → ⊥
tested f t = ground arith

weights-IsInt64 : (parts : List String) → All IsInt64 (map int_or_one parts)
unfolding int_or_one
weights-IsInt64 [] = tt
weights-IsInt64 (p ∷ parts) = (
  parsed_or_default (atoi (trim_space p)) (pos 1) (atoi-Fits (trim_space p))
      (omega arith, omega arith),
  weights-IsInt64 parts,
)

parse_int_csv-IsInt64 : (s : String) → All IsInt64 (parse_int_csv s)
unfolding parse_int_csv
parse_int_csv-IsInt64 s = elim (Bool-cases (str_eq s "")) [
  | inl empty ↦ rw empty tt
  | inr value ↦ rw value (weights-IsInt64 (split_comma s))
]

cons_first-length : (c : Char) (parts : List String) → 0 < length (cons_first c parts)
cons_first-length c [] = omega arith
cons_first-length c (p ∷ parts) = omega arith

split_comma-length : (s : String) → 0 < length (map trim_space (split_comma s))
unfolding split_comma
split_comma-length [] = omega arith
split_comma-length (c ∷ s) = elim (Bool-cases (code c == b',')) [
  | inl comma ↦ rw comma (omega arith)
  | inr other ↦
      rw other (mapped (cons_first c (split_comma s)) (cons_first-length c (split_comma s)))
]
  where
    mapped : (parts : List String) → 0 < length parts → 0 < length (map trim_space parts)
    mapped [] h = absurd (omega arith)
    mapped (p ∷ parts) h = omega arith

abbrev Numbers : Config → Type 0
Numbers cfg =
    All IsInt64 cfg.weights
    × IsInt64 cfg.rate_limit_max
    × IsInt64 cfg.max_body_size
    × IsInt64 cfg.max_header_size

read_config-Numbers :
    (getenv : String → String) (parse_duration : String → Option ℤ)
    → Numbers (read_config getenv parse_duration)
unfolding read_config get_int64
read_config-Numbers getenv parse_duration = (
  parse_int_csv-IsInt64 (get_env getenv "LB_WEIGHTS" ""),
  get_int-IsInt64 getenv "LB_RATE_LIMIT_MAX" (pos 100) (omega arith, omega arith),
  get_int64-IsInt64 getenv "LB_MAX_BODY_SIZE" (pos 10_485_760) (omega arith, omega arith),
  get_int-IsInt64 getenv "LB_MAX_HEADER_SIZE" (pos 8192) (omega arith, omega arith),
)

urls_unset :
    (getenv : String → String) (parse_duration : String → Option ℤ)
    → str_eq (getenv "LB_BACKENDS") "" ≡ true
    → length (read_config getenv parse_duration).backend_urls ≡ 0
unfolding read_config parse_csv get_env
urls_unset getenv parse_duration h = rw h refl

parse_csv-length : (s : String) → str_eq s "" ≡ false → 0 < length (parse_csv s)
unfolding parse_csv
parse_csv-length s h = rw h (split_comma-length s)

get_env-listed :
    (getenv : String → String) (key def : String)
    → str_eq (getenv key) "" ≡ false
    → get_env getenv key def ≡ getenv key
unfolding get_env
get_env-listed getenv key def h = rw h refl

urls_listed :
    (getenv : String → String) (parse_duration : String → Option ℤ)
    → str_eq (getenv "LB_BACKENDS") "" ≡ false
    → 0 < length (read_config getenv parse_duration).backend_urls
unfolding read_config
urls_listed getenv parse_duration h =
    rw (get_env-listed getenv "LB_BACKENDS" "" h) (parse_csv-length (getenv "LB_BACKENDS") h)

-- What loading gives: nothing when no backend is listed, and else at least one backend and numbers
-- that fit an int64.
abbrev pub Loaded : (String → String) → Option Config → Type 0
Loaded getenv none = getenv "LB_BACKENDS" ≡ ""
Loaded getenv (some cfg) = (getenv "LB_BACKENDS" ≢ "") × (0 < length cfg.backend_urls) × Numbers cfg

-- The program ends for want of backends exactly when the variable for them is empty or not set;
-- otherwise it has at least one text for a backend, and its weights and limits fit an int64,
-- whatever the environment holds.
pub load_config-Loaded :
    (getenv : String → String) (parse_duration : String → Option ℤ)
    → Loaded getenv (load_config getenv parse_duration)
unfolding load_config
load_config-Loaded getenv parse_duration = elim (Bool-cases (str_eq (getenv "LB_BACKENDS") "")) [
  | inl unset ↦
      let none_listed : (length (read_config getenv parse_duration).backend_urls == 0) ≡ true =
        equal_zero (urls_unset getenv parse_duration unset) in
      rw none_listed ((str_eq_iff (getenv "LB_BACKENDS") "").0 unset)
  | inr listed ↦
      let some_listed = urls_listed getenv parse_duration listed in
      let test : (length (read_config getenv parse_duration).backend_urls == 0) ≡ false =
        ground arith in
      rw test (
        (λ e. absurd (tested listed ((str_eq_iff (getenv "LB_BACKENDS") "").1 e))),
        some_listed,
        read_config-Numbers getenv parse_duration,
      )
]
