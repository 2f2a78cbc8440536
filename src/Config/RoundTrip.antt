-- ===== src/Config/RoundTrip.antt =====
-- internal/config.go: lists of numbers, written with commas and read.
use Prim.Native.Char.{code}
use Prim.Native.String.{String, [], ◌∷◌, ◌++◌}
use Prim.Native.String.append
use poly_balance.Base.{
  ℕ, suc, ◌+◌, ◌*◌, ◌-◌, ◌≡◌, refl, sym, ap, ◌∙◌, subst, false, Bool-cases, inl, inr, Option, none,
  some, ℤ, pos, negsuc, List, [], ◌∷◌, map, All, leb, arith, ◌&&◌, then_branch, else_branch, ◌==◌,
  str_eq, str_eq_iff,
}
use poly_balance.Text.{
  digits, is_space, trim_left, trim_right, trim_space, split_comma, cons_first, keep_before, atoi,
  decimal, itoa,
}
use poly_balance.Text.Decimal.{NonEmpty, itoa-digits, append-NonEmpty, IsInt64, atoi-decimal}
use poly_balance.Config.{int_or_one, parse_int_csv}

-- No character is a space or a comma.
abbrev Plain : String → Type 0
Plain [] = Unit
Plain (c ∷ s) = (is_space (code c) ≡ false) × ((code c == b',') ≡ false) × Plain s

digits-Plain : (acc n : ℕ) (s : String) → digits acc s ≡ some n → Plain s
unfolding digits is_space
digits-Plain acc n [] read = tt
digits-Plain acc n (c ∷ s) read =
    let is_digit = leb b'0' (code c) && leb (code c) b'9' in
    elim (Bool-cases is_digit) [
      | inl yes_digit ↦ (
        ground (arith, yes_digit),
        ground (arith, yes_digit),
        digits-Plain (acc * 10 + (code c - b'0')) n s
            (sym (then_branch is_digit _ none yes_digit) ∙ read),
      )
      | inr other ↦
          let clash : none ≡ some n = sym (else_branch is_digit _ none other) ∙ read in ground arith
    ]

decimal-Plain : (z : ℤ) → Plain (decimal z) × NonEmpty (decimal z)
unfolding decimal is_space
decimal-Plain (pos n) = let (read, given) = itoa-digits n in (digits-Plain 0 n (itoa n) read, given)
decimal-Plain (negsuc n) =
    let (read, given) = itoa-digits (suc n) in
    let e =
      append.cons "-" [] (itoa (suc n))
      ∙ ap (λ (t : String). "-" ∷ t) (append.nil (itoa (suc n))) in
    (
      subst Plain (sym e) (refl, refl, digits-Plain 0 (suc n) (itoa (suc n)) read),
      append-NonEmpty "-" (itoa (suc n)) given,
    )

trim_right-Plain : (s : String) → Plain s → trim_right s ≡ s
unfolding trim_right
trim_right-Plain [] plain = refl
trim_right-Plain (c ∷ []) plain = else_branch (is_space (code c)) [] (c ∷ []) plain.0
trim_right-Plain (c ∷ d ∷ s) plain = ap (keep_before c) (trim_right-Plain (d ∷ s) plain.2)

trim_space-Plain : (s : String) → Plain s → trim_space s ≡ s
unfolding trim_space trim_left
trim_space-Plain [] plain = ap trim_left (trim_right-Plain [] plain)
trim_space-Plain (c ∷ s) plain =
    ap trim_left (trim_right-Plain (c ∷ s) plain)
    ∙ else_branch (is_space (code c)) (trim_left s) (c ∷ s) plain.0

int_or_one-decimal : (z : ℤ) → IsInt64 z → int_or_one (decimal z) ≡ z
unfolding int_or_one
int_or_one-decimal z fits =
    ap (λ s. elim (atoi s) as (λ _. ℤ) [ none ↦ pos 1 | some n ↦ n ])
      (trim_space-Plain (decimal z) (decimal-Plain z).0)
    ∙ ap (λ (o : Option ℤ). elim o as (λ _. ℤ) [ none ↦ pos 1 | some n ↦ n ]) (atoi-decimal z fits)

split_one : (s : String) → Plain s → split_comma s ≡ s ∷ []
unfolding split_comma
split_one [] plain = refl
split_one (c ∷ s) plain =
    else_branch (code c == b',') _ _ plain.1 ∙ ap (cons_first c) (split_one s plain.2)

after_comma : (t : String) → "," ++ t ≡ "," ∷ t
after_comma t = append.cons "," [] t ∙ ap (λ (u : String). "," ∷ u) (append.nil t)

split_first : (s t : String) → Plain s → split_comma (s ++ ("," ++ t)) ≡ s ∷ split_comma t
unfolding split_comma
split_first [] t plain = ap split_comma (append.nil ("," ++ t) ∙ after_comma t)
split_first (c ∷ s) t plain =
    ap split_comma (append.cons c s ("," ++ t))
    ∙ else_branch (code c == b',') _ _ plain.1
    ∙ ap (cons_first c) (split_first s t plain.2)

-- `strings.Join` with commas of numbers in decimal.
abbrev pub print_csv : List ℤ → String
print_csv [] = ""
print_csv (z ∷ []) = decimal z
print_csv (z ∷ y ∷ zs) = decimal z ++ ("," ++ print_csv (y ∷ zs))

parts_read :
    (z : ℤ) (zs : List ℤ)
    → All IsInt64 (z ∷ zs)
    → map int_or_one (split_comma (print_csv (z ∷ zs))) ≡ z ∷ zs
parts_read z [] fits =
    ap (map int_or_one) (split_one (decimal z) (decimal-Plain z).0)
    ∙ ap (λ x. x ∷ []) (int_or_one-decimal z fits.0)
parts_read z (y ∷ zs) fits =
    ap (map int_or_one) (split_first (decimal z) (print_csv (y ∷ zs)) (decimal-Plain z).0)
    ∙ ap (λ x. x ∷ map int_or_one (split_comma (print_csv (y ∷ zs)))) (int_or_one-decimal z fits.0)
    ∙ ap (◌∷◌ z) (parts_read y zs fits.1)

print_csv-NonEmpty : (z : ℤ) (zs : List ℤ) → NonEmpty (print_csv (z ∷ zs))
print_csv-NonEmpty z [] = (decimal-Plain z).1
print_csv-NonEmpty z (y ∷ zs) =
    append-NonEmpty (decimal z) ("," ++ print_csv (y ∷ zs)) (_, _, after_comma (print_csv (y ∷ zs)))

given_text : (s : String) → NonEmpty s → str_eq s "" ≡ false
given_text [] (c, t, e) = cc
given_text (c ∷ s) given = elim (Bool-cases (str_eq (c ∷ s) "")) [
  | inl empty ↦ let clash : Path String (c ∷ s) [] = (str_eq_iff (c ∷ s) "").0 empty in cc
  | inr more ↦ more
]

-- A list of weights, each an int64, that is written in decimal with commas between is read back by
-- parseIntCSV, number by number.
pub parse_int_csv-print : (zs : List ℤ) → All IsInt64 zs → parse_int_csv (print_csv zs) ≡ zs
unfolding parse_int_csv
parse_int_csv-print [] fits = refl
parse_int_csv-print (z ∷ zs) fits =
    else_branch (str_eq (print_csv (z ∷ zs)) "") [] _
      (given_text (print_csv (z ∷ zs)) (print_csv-NonEmpty z zs))
    ∙ parts_read z zs fits
