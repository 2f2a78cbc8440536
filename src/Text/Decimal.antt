-- ===== src/Text/Decimal.antt =====
-- strconv: numbers in decimal, printed and read.
use Prim.Native.Char.{Char, code}
use Prim.Native.String.{String, [], ◌∷◌, ◌++◌, slice}
use Prim.Native.String.append
use poly_balance.Base.{
  sub_ℕ, ℕ, zero, suc, ◌+◌, ◌*◌, ◌/◌, ◌%◌, ◌-◌, ◌<◌, ◌≤◌, ◌≡◌, refl, sym, ap, ◌∙◌, true, false,
  Bool-cases, inl, inr, Option, none, some, ℤ, pos, negsuc, max_int64, leb, ltb, arith, ◌&&◌,
  then_branch, else_branch, ◌==◌,
}
use poly_balance.Text.{digits, magnitude, in_int64, negated_int64, atoi, itoa, itoa_fuel, decimal}

-- Reading on from a number, or from nothing.
abbrev continued : Option ℕ → String → Option ℕ
continued none t = none
continued (some acc) t = digits acc t

digits-append : (acc : ℕ) (s t : String) → digits acc (s ++ t) ≡ continued (digits acc s) t
unfolding digits
digits-append acc [] t = ap (digits acc) (append.nil t)
digits-append acc (c ∷ s) t =
    let is_digit = leb b'0' (code c) && leb (code c) b'9' in
    let acc' = acc * 10 + (code c - b'0') in
    ap (digits acc) (append.cons c s t) ∙ (elim (Bool-cases is_digit) [
      | inl yes_digit ↦
          then_branch is_digit (digits acc' (s ++ t)) none yes_digit
          ∙ digits-append acc' s t
          ∙ ap (λ o. continued o t) (sym (then_branch is_digit (digits acc' s) none yes_digit))
      | inr other ↦
          else_branch is_digit (digits acc' (s ++ t)) none other
          ∙ ap (λ o. continued o t) (sym (else_branch is_digit (digits acc' s) none other))
    ])

digit_read : (acc d : ℕ) → d < 10 → digits acc (slice "0123456789" d (d + 1)) ≡ some (acc * 10 + d)
unfolding digits
digit_read acc zero h = refl
digit_read acc (suc zero) h = refl
digit_read acc (suc (suc zero)) h = refl
digit_read acc (suc (suc (suc zero))) h = refl
digit_read acc (suc (suc (suc (suc zero)))) h = refl
digit_read acc (suc (suc (suc (suc (suc zero))))) h = refl
digit_read acc (suc (suc (suc (suc (suc (suc zero)))))) h = refl
digit_read acc (suc (suc (suc (suc (suc (suc (suc zero))))))) h = refl
digit_read acc (suc (suc (suc (suc (suc (suc (suc (suc zero)))))))) h = refl
digit_read acc (suc (suc (suc (suc (suc (suc (suc (suc (suc zero))))))))) h = refl
digit_read acc (suc (suc (suc (suc (suc (suc (suc (suc (suc (suc d)))))))))) h =
    absurd (omega arith)

abbrev pub NonEmpty : String → Type 0
NonEmpty s = (c : Char) × (t : String) × (s ≡ c ∷ t)

digit-NonEmpty : (d : ℕ) → d < 10 → NonEmpty (slice "0123456789" d (d + 1))
digit-NonEmpty zero h = (_, _, refl)
digit-NonEmpty (suc zero) h = (_, _, refl)
digit-NonEmpty (suc (suc zero)) h = (_, _, refl)
digit-NonEmpty (suc (suc (suc zero))) h = (_, _, refl)
digit-NonEmpty (suc (suc (suc (suc zero)))) h = (_, _, refl)
digit-NonEmpty (suc (suc (suc (suc (suc zero))))) h = (_, _, refl)
digit-NonEmpty (suc (suc (suc (suc (suc (suc zero)))))) h = (_, _, refl)
digit-NonEmpty (suc (suc (suc (suc (suc (suc (suc zero))))))) h = (_, _, refl)
digit-NonEmpty (suc (suc (suc (suc (suc (suc (suc (suc zero)))))))) h = (_, _, refl)
digit-NonEmpty (suc (suc (suc (suc (suc (suc (suc (suc (suc zero))))))))) h = (_, _, refl)
digit-NonEmpty (suc (suc (suc (suc (suc (suc (suc (suc (suc (suc d)))))))))) h =
    absurd (omega arith)

pub append-NonEmpty : (s t : String) → NonEmpty t → NonEmpty (s ++ t)
append-NonEmpty [] t (c, u, e) = (c, u, append.nil t ∙ e)
append-NonEmpty (c ∷ s) t given = (c, s ++ t, append.cons c s t)

-- Enough fuel prints all digits, at least one.
itoa_fuel-digits :
    (f n : ℕ) → n < f → (digits 0 (itoa_fuel f n) ≡ some n) × NonEmpty (itoa_fuel f n)
unfolding itoa_fuel
itoa_fuel-digits zero n h = absurd (omega arith)
itoa_fuel-digits (suc f) n h =
    let last = slice "0123456789" (n % 10) (n % 10 + 1) in
    let below : n % 10 < 10 = omega arith in
    elim (Bool-cases (ltb n 10)) [
      | inl small ↦
          let same : 0 * 10 + n % 10 ≡ n = ground (arith, small) in
          rw small (digit_read 0 (n % 10) below ∙ ap some same, digit-NonEmpty (n % 10) below)
      | inr large ↦
          let less : n / 10 < f = ground (arith, large, h) in
          let before = itoa_fuel-digits f (n / 10) less in
          let same : n / 10 * 10 + n % 10 ≡ n = omega arith in
          rw large (
            digits-append 0 (itoa_fuel f (n / 10)) last
                ∙ ap (λ o. continued o last) before.0
                ∙ digit_read (n / 10) (n % 10) below
                ∙ ap some same,
            append-NonEmpty (itoa_fuel f (n / 10)) last (digit-NonEmpty (n % 10) below),
          )
    ]

pub itoa-digits : (n : ℕ) → (digits 0 (itoa n) ≡ some n) × NonEmpty (itoa n)
unfolding itoa
itoa-digits n = itoa_fuel-digits (n + 1) n (omega arith)

-- A numeral of digits is read without a sign.
magnitude-atoi :
    (s : String) (n : ℕ) → digits 0 s ≡ some n → NonEmpty s → atoi s ≡ in_int64 (some n)
unfolding digits atoi magnitude
magnitude-atoi [] n read (c, t, e) = cc
magnitude-atoi (c ∷ s) n read given =
    let is_digit = leb b'0' (code c) && leb (code c) b'9' in
    elim (Bool-cases is_digit) [
      | inl yes_digit ↦
          let not_minus : (code c == b'-') ≡ false = ground (arith, yes_digit) in
          let not_plus : (code c == b'+') ≡ false = ground (arith, yes_digit) in
          rw (not_minus, not_plus) (ap in_int64 read)
      | inr other ↦
          let clash : none ≡ some n = sym (else_branch is_digit _ none other) ∙ read in ground arith
    ]

signed-atoi : (s : String) → NonEmpty s → atoi ("-" ++ s) ≡ negated_int64 (digits 0 s)
unfolding atoi magnitude
signed-atoi [] (c, t, e) = cc
signed-atoi (c ∷ s) given =
    ap atoi (append.cons "-" [] (c ∷ s) ∙ ap (λ (t : String). "-" ∷ t) (append.nil (c ∷ s)))

-- The int64 numbers.
abbrev pub IsInt64 : ℤ → Type 0
IsInt64 (pos n) = n ≤ max_int64
IsInt64 (negsuc n) = n ≤ max_int64

-- Every int64 that is printed in decimal is read back by Atoi.
pub atoi-decimal : (z : ℤ) → IsInt64 z → atoi (decimal z) ≡ some z
unfolding decimal
atoi-decimal (pos n) fits =
    let (read, given) = itoa-digits n in
    let small : leb n max_int64 ≡ true = ground arith in
    magnitude-atoi (itoa n) n read given ∙ then_branch (leb n max_int64) _ _ small
atoi-decimal (negsuc n) fits =
    let (read, given) = itoa-digits (suc n) in
    let small : leb (suc n) (suc max_int64) ≡ true = ground arith in
    let negated : sub_ℕ 0 (suc n) ≡ negsuc n = ground arith in
    signed-atoi (itoa (suc n)) given
    ∙ ap negated_int64 read
    ∙ then_branch (leb (suc n) (suc max_int64)) _ _ small
    ∙ ap some negated
