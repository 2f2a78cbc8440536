-- ===== src/Text.antt =====
-- What the program uses of the packages strings and strconv: splitting, trimming, parsing and
-- printing of numbers.
pub mod Decimal
use Prim.Native.Char.{Char, code}
use Prim.Native.String.{String, [], ◌∷◌, ◌++◌, slice}
use poly_balance.Base.{
  ℕ, zero, suc, ◌/◌, ◌%◌, ltb, negsuc, ◌+◌, ◌*◌, ◌-◌, Bool, true, false, ◌||◌, ◌&&◌, ◌==◌, leb,
  if◌then◌else◌, Option, none, some, ℤ, pos, sub_ℕ, max_int64, str_eq, List, [], ◌∷◌,
}

-- `strings.Split(s, ",")[0]`.
unfoldable pub first_part : String → String
first_part [] = []
first_part (c ∷ s) = if code c == b',' then [] else c ∷ first_part s

-- `unicode.IsSpace`.
unfoldable pub is_space : ℕ → Bool
is_space n =
    (leb 9 n && leb n 13)
    || n == 32
    || n == 0x85
    || n == 0xa0
    || n == 0x1680
    || (leb 0x2000 n && leb n 0x200a)
    || n == 0x2028
    || n == 0x2029
    || n == 0x202f
    || n == 0x205f
    || n == 0x3000

unfoldable pub trim_left : String → String
unfolding is_space
trim_left [] = []
trim_left (c ∷ s) = if is_space (code c) then trim_left s else c ∷ s

-- Drops a space that nothing follows.
abbrev pub keep_before : Char → String → String
keep_before c [] = if is_space (code c) then [] else c ∷ []
keep_before c (d ∷ s) = c ∷ d ∷ s

unfoldable pub trim_right : String → String
unfolding is_space
trim_right [] = []
trim_right (c ∷ s) = keep_before c (trim_right s)

-- `strings.TrimSpace`.
unfoldable pub trim_space : String → String
unfolding trim_left trim_right
trim_space s = trim_left (trim_right s)

-- The first character of a list's first part.
abbrev pub cons_first : Char → List String → List String
cons_first c [] = (c ∷ []) ∷ []
cons_first c (part ∷ parts) = (c ∷ part) ∷ parts

-- `strings.Split(s, ",")`.
unfoldable pub split_comma : String → List String
split_comma [] = "" ∷ []
split_comma (c ∷ s) = if code c == b',' then "" ∷ split_comma s else cons_first c (split_comma s)

-- The digits of a numeral, with the value of those read.
unfoldable pub digits : ℕ → String → Option ℕ
digits acc [] = some acc
digits acc (c ∷ s) =
    let rest = digits (acc * 10 + (code c - b'0')) s in
    if leb b'0' (code c) && leb (code c) b'9' then rest else none

-- At least one digit.
unfoldable pub magnitude : String → Option ℕ
unfolding digits
magnitude [] = none
magnitude (c ∷ s) = digits 0 (c ∷ s)

abbrev pub in_int64 : Option ℕ → Option ℤ
in_int64 none = none
in_int64 (some n) = if leb n max_int64 then some (pos n) else none

abbrev pub negated_int64 : Option ℕ → Option ℤ
negated_int64 none = none
negated_int64 (some n) = if leb n (suc max_int64) then some (sub_ℕ 0 n) else none

-- `strconv.ParseInt(s, 10, 64)`, and `strconv.Atoi` where an int has 64 bits.
unfoldable pub atoi : String → Option ℤ
unfolding magnitude
atoi [] = none
atoi (c ∷ s) =
    if code c == b'-'
    then negated_int64 (magnitude s)
    else in_int64 (magnitude (if code c == b'+' then s else c ∷ s))

abbrev any_of : List String → String → Bool
any_of [] s = false
any_of (t ∷ ts) s = str_eq s t || any_of ts s

-- `strconv.ParseBool`.
unfoldable pub parse_bool : String → Option Bool
parse_bool s =
    if any_of ("1" ∷ "t" ∷ "T" ∷ "true" ∷ "TRUE" ∷ "True" ∷ []) s
    then some true
    else if any_of ("0" ∷ "f" ∷ "F" ∷ "false" ∷ "FALSE" ∷ "False" ∷ []) s
    then some false
    else none

-- `strconv.Itoa` of a number that is not negative; its last digit takes one unit of fuel.
unfoldable pub itoa_fuel : ℕ → ℕ → String
itoa_fuel zero n = ""
itoa_fuel (suc f) n =
    let rest = itoa_fuel f (n / 10) in
    let digit = slice "0123456789" (n % 10) (n % 10 + 1) in
    if ltb n 10 then digit else rest ++ digit

unfoldable pub itoa : ℕ → String
unfolding itoa_fuel
itoa n = itoa_fuel (n + 1) n

-- `%d` of an int, and `strconv.Itoa`.
unfoldable pub decimal : ℤ → String
decimal (pos n) = itoa n
decimal (negsuc n) = "-" ++ itoa (suc n)

-- A text put together by `+`.
unfoldable pub concat : List String → String
concat [] = ""
concat (s ∷ ss) = s ++ concat ss
