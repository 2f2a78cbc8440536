-- ===== src/Base/Int.antt =====
-- Signed integers over the native numbers, with the orders and the 64-bit increment of Go's int64.
use Prim.Native.Nat.{ℕ, zero, suc, ◌+◌, ◌-◌, ◌≤◌}
use mathlib.Core.Path.{◌≡◌}
use mathlib.Core.Bool.{Bool, true, false}
use native.Mathlib.Omega.{arith}
use poly_balance.Base.Tests.{ltb, leb, ◌==◌, if◌then◌else◌}

-- `negsuc n` is -(n + 1).
pub data ℤ : Type 0 where
  pos : ℕ → ℤ
  negsuc : ℕ → ℤ

abbrev pub pos_part : ℤ → ℕ
pos_part (pos n) = n
pos_part (negsuc n) = 0

abbrev pub neg_part : ℤ → ℕ
neg_part (pos n) = 0
neg_part (negsuc n) = suc n

-- a - b, as an integer.
abbrev pub sub_ℕ : ℕ → ℕ → ℤ
sub_ℕ a b = if leb b a then pos (a - b) else negsuc (b - a - 1)

infix 50 ◌≤ℤ◌
abbrev pub ◌≤ℤ◌ : ℤ → ℤ → Type 0
a ≤ℤ b = pos_part a + neg_part b ≤ pos_part b + neg_part a

abbrev pub ltb_ℤ : ℤ → ℤ → Bool
ltb_ℤ a b = ltb (pos_part a + neg_part b) (pos_part b + neg_part a)

abbrev pub leb_ℤ : ℤ → ℤ → Bool
leb_ℤ a b = leb (pos_part a + neg_part b) (pos_part b + neg_part a)

abbrev pub eqb_ℤ : ℤ → ℤ → Bool
eqb_ℤ a b = (pos_part a + neg_part b) == (pos_part b + neg_part a)

pub ≤ℤ_total_of_ltb : (a b : ℤ) → ltb_ℤ a b ≡ false → b ≤ℤ a
≤ℤ_total_of_ltb a b h = ground arith

pub ltb_ℤ→not_≤ℤ : (a b : ℤ) → ltb_ℤ a b ≡ true → ¬ (b ≤ℤ a)
ltb_ℤ→not_≤ℤ a b h = ground arith

pub ≤ℤ_trans : (a b c : ℤ) → a ≤ℤ b → b ≤ℤ c → a ≤ℤ c
≤ℤ_trans a b c h k = omega arith

-- The largest int64, and the smallest one's distance from -1.
abbrev pub max_int64 : ℕ
max_int64 = 9223372036854775807

-- `x++` on an int64: the largest value wraps to the smallest.
unfoldable pub inc_int64 : ℤ → ℤ
inc_int64 (pos n) = if n == max_int64 then negsuc max_int64 else pos (n + 1)
inc_int64 (negsuc zero) = pos 0
inc_int64 (negsuc (suc n)) = negsuc n

-- `x--` on an int64: the smallest value wraps to the largest.
unfoldable pub dec_int64 : ℤ → ℤ
dec_int64 (pos zero) = negsuc 0
dec_int64 (pos (suc n)) = pos n
dec_int64 (negsuc n) = if n == max_int64 then pos max_int64 else negsuc (n + 1)
