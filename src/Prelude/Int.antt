-- ===== src/Prelude/Int.antt =====
-- Signed integers over the native numbers: Python's `int`, and the coefficients of a `Decimal`.
use Prim.Native.Nat.{ℕ, zero, suc, ◌+◌, ◌-◌, ◌≤◌}
use mathlib.Core.Bool.{Bool}
use mathlib.Core.Path.{◌≡◌}
use native.Mathlib.Omega.{arith}
use payroll_management_syste.Prelude.Tests.{ltb, leb, if◌then◌else◌}

-- `negsuc n` is -(n + 1).
pub data ℤ : Type 0 where
  pos : ℕ → ℤ
  negsuc : ℕ → ℤ

abbrev pub pos_part : ℤ → ℕ
pos_part (pos n) = n
pos_part (negsuc n) = 0

abbrev pub neg_part : ℤ → ℕ
neg_part (pos n) = 0
neg_part (negsuc n) = suc n

-- The absolute value.
abbrev pub magnitude : ℤ → ℕ
magnitude (pos n) = n
magnitude (negsuc n) = suc n

abbrev pub negated : ℕ → ℤ
negated zero = pos 0
negated (suc n) = negsuc n

-- The number of that magnitude with the sign of the first.
abbrev pub with_sign : ℤ → ℕ → ℤ
with_sign (pos _) m = pos m
with_sign (negsuc _) m = negated m

-- a - b, as an integer.
abbrev pub sub_ℕ : ℕ → ℕ → ℤ
sub_ℕ a b = if leb b a then pos (a - b) else negsuc (b - a - 1)

infixl 65 ◌+ℤ◌ ◌-ℤ◌
infix 50 ◌≤ℤ◌
unfoldable pub ◌+ℤ◌ : ℤ → ℤ → ℤ
a +ℤ b = sub_ℕ (pos_part a + pos_part b) (neg_part a + neg_part b)

unfoldable pub ◌-ℤ◌ : ℤ → ℤ → ℤ
a -ℤ b = sub_ℕ (pos_part a + neg_part b) (neg_part a + pos_part b)

unfoldable pub neg_ℤ : ℤ → ℤ
neg_ℤ (pos n) = negated n
neg_ℤ (negsuc n) = pos (suc n)

-- The number of magnitude `m` with the sign of a product or quotient of `a` and `b`.
abbrev pub with_signs : ℤ → ℤ → ℕ → ℤ
with_signs (pos _) b m = with_sign b m
with_signs (negsuc _) (pos _) m = negated m
with_signs (negsuc _) (negsuc _) m = pos m

abbrev pub ◌≤ℤ◌ : ℤ → ℤ → Type 0
a ≤ℤ b = pos_part a + neg_part b ≤ pos_part b + neg_part a

abbrev pub leb_ℤ : ℤ → ℤ → Bool
leb_ℤ a b = leb (pos_part a + neg_part b) (pos_part b + neg_part a)

abbrev pub ltb_ℤ : ℤ → ℤ → Bool
ltb_ℤ a b = ltb (pos_part a + neg_part b) (pos_part b + neg_part a)

pub +ℤ_parts :
    (a b : ℤ)
    → pos_part (a +ℤ b) + neg_part a + neg_part b ≡ neg_part (a +ℤ b) + pos_part a + pos_part b
unfolding ◌+ℤ◌
+ℤ_parts a b = ground arith

pub -ℤ_parts :
    (a b : ℤ)
    → pos_part (a -ℤ b) + neg_part a + pos_part b ≡ neg_part (a -ℤ b) + pos_part a + neg_part b
unfolding ◌-ℤ◌
-ℤ_parts a b = ground arith

pub neg_ℤ_parts : (a : ℤ) → pos_part (neg_ℤ a) + pos_part a ≡ neg_part (neg_ℤ a) + neg_part a
unfolding neg_ℤ
neg_ℤ_parts (pos zero) = omega arith
neg_ℤ_parts (pos (suc n)) = omega arith
neg_ℤ_parts (negsuc n) = omega arith

pub magnitude_parts : (a : ℤ) → magnitude a ≡ pos_part a + neg_part a
magnitude_parts (pos n) = omega arith
magnitude_parts (negsuc n) = omega arith

pub eq_of_parts : (a b : ℤ) → pos_part a + neg_part b ≡ pos_part b + neg_part a → a ≡ b
eq_of_parts a b h = ground arith

pub magnitude-+ℤ-le : (a b : ℤ) → magnitude (a +ℤ b) ≤ magnitude a + magnitude b
unfolding ◌+ℤ◌
magnitude-+ℤ-le a b = ground arith

pub magnitude-neg_ℤ : (a : ℤ) → magnitude (neg_ℤ a) ≡ magnitude a
unfolding neg_ℤ
magnitude-neg_ℤ (pos zero) = omega arith
magnitude-neg_ℤ (pos (suc n)) = omega arith
magnitude-neg_ℤ (negsuc n) = omega arith

pub pos_part-neg_ℤ : (n : ℕ) → pos_part (neg_ℤ (pos n)) ≡ 0
unfolding neg_ℤ
pos_part-neg_ℤ zero = omega arith
pos_part-neg_ℤ (suc n) = omega arith

pub ruleset int_laws = (arith, +ℤ_parts, -ℤ_parts, neg_ℤ_parts, eq_of_parts)

pub zero-+ℤ : (b : ℤ) → pos 0 +ℤ b ≡ b
zero-+ℤ b = omega int_laws

pub +ℤ-zero : (b : ℤ) → b +ℤ pos 0 ≡ b
+ℤ-zero b = omega int_laws

pub +ℤ_assoc : (a b c : ℤ) → a +ℤ b +ℤ c ≡ a +ℤ (b +ℤ c)
+ℤ_assoc a b c = omega int_laws
