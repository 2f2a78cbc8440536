-- ===== src/Backend/Float.antt =====
-- What `RecordLatency` uses of Go's float64: its own operations, and the laws of IEEE rounding that
-- hold of them between zero and 2^62, where conversion to int64 cannot overflow.
use native.Mathlib.Nat.{mul-le-mul_right, div-le_of_le-mul}
use poly_balance.Base.{ℕ, ◌+◌, ◌*◌, ◌/◌, ◌≤◌, ◌<◌, ℤ, pos, pos_part, ◌≤ℤ◌, arith}

-- 2^62 nanoseconds, about 146 years.
abbrev pub latency_cap : ℕ
latency_cap = 4611686018427387904

-- `keep` is the constant 1 - alpha. `Within x` says that `x` lies between 0 and 2^62.
pub record Float64 : Type 1 where
  pub F : Type 0
  pub of_int : ℤ → F
  pub to_int : F → ℤ
  pub add : F → F → F
  pub mul : F → F → F
  pub keep : F
  pub alpha : F
  pub Within : F → Type 0
  pub of_int-Within : (n : ℕ) → n ≤ latency_cap → Within (of_int (pos n))
  pub mix-Within : (x y : F) → Within x → Within y → Within (add (mul keep x) (mul alpha y))
  pub to_int-Within : (x : F) → Within x → (pos 0 ≤ℤ to_int x) × (to_int x ≤ℤ pos latency_cap)

-- Exact fractions satisfy the laws.
pub record Fraction : Type 0 where
  pub num : ℕ
  pub den : ℕ

abbrev pub fraction_add : Fraction → Fraction → Fraction
fraction_add x y = record { num = x.num * y.den + y.num * x.den; den = x.den * y.den }

abbrev pub fraction_mul : Fraction → Fraction → Fraction
fraction_mul x y = record { num = x.num * y.num; den = x.den * y.den }

abbrev pub FractionWithin : Fraction → Type 0
FractionWithin x = (0 < x.den) × (x.num ≤ latency_cap * x.den)

pub mix_bound :
    (k a b c d : ℕ)
    → 0 < b
    → 0 < d
    → a ≤ k * b
    → c ≤ k * d
    → (0 < 5 * b * (5 * d)) × (4 * a * (5 * d) + 1 * c * (5 * b) ≤ k * (5 * b * (5 * d)))
mix_bound k a b c d hb hd ha hc =
    (grind arith, omega (arith, mul-le-mul_right (20 * d) ha, mul-le-mul_right (5 * b) hc))

pub fraction_mix :
    (x y : Fraction)
    → FractionWithin x
    → FractionWithin y
    → FractionWithin (
        fraction_add
          (fraction_mul (record { num = 4; den = 5 }) x)
          (fraction_mul (record { num = 1; den = 5 }) y))
fraction_mix x y h k = mix_bound latency_cap x.num x.den y.num y.den h.0 k.0 h.1 k.1

pub fraction_to_int :
    (x : Fraction)
    → FractionWithin x
    → (pos 0 ≤ℤ pos (x.num / x.den)) × (pos (x.num / x.den) ≤ℤ pos latency_cap)
fraction_to_int x h =
    (omega arith, omega (arith, div-le_of_le-mul x.den {m = x.num} {n = latency_cap} (omega arith)))

abbrev pub fractions : Float64
fractions = record {
  F = Fraction;
  of_int = λ n. record { num = pos_part n; den = 1 };
  to_int = λ x. pos (x.num / x.den);
  add = fraction_add;
  mul = fraction_mul;
  keep = record { num = 4; den = 5 };
  alpha = record { num = 1; den = 5 };
  Within = FractionWithin;
  of_int-Within = λ n h. (omega arith, omega arith);
  mix-Within = fraction_mix;
  to_int-Within = fraction_to_int;
}
