-- ===== src/Decimal/Exact.antt =====
-- Where `decimal` arithmetic is exact: results of at most 28 digits are not rounded.
use payroll_management_syste.Prelude.{refl, ◌*◌, ◌<◌, ◌≡◌, arith}
use payroll_management_syste.Prelude.Int.{
  zero-+ℤ, ℤ, pos, negsuc, magnitude, with_sign, ◌+ℤ◌, neg_ℤ, magnitude-neg_ℤ,
}
use payroll_management_syste.Outcome.{ok}
use payroll_management_syste.Decimal.{
  computing, Decimal, cents, whole, limit, fix, add, neg, sub, abs, quantize, quantum,
}

pub fix_small : (d : Decimal) → magnitude d.coeff < limit → fix d ≡ d
unfolding fix
fix_small d h = ground arith

-- At its own scale a coefficient is left alone.
with_sign_self : (c : ℤ) → with_sign c (magnitude c * 1) ≡ c
with_sign_self (pos n) = ground arith
with_sign_self (negsuc n) = ground arith

pub add-cents : (a b : ℤ) → magnitude (a +ℤ b) < limit → add (cents a) (cents b) ≡ cents (a +ℤ b)
unfolding add
add-cents a b h = rw (with_sign_self a, with_sign_self b) (fix_small (cents (a +ℤ b)) h)

pub add-zero-cents : (b : ℤ) → magnitude b < limit → add (whole 0) (cents b) ≡ cents b
unfolding add
add-zero-cents b h = rw (with_sign_self b, zero-+ℤ b) (fix_small (cents b) h)

pub neg-cents : (a : ℤ) → magnitude a < limit → neg (cents a) ≡ cents (neg_ℤ a)
unfolding neg
neg-cents a h = fix_small (cents (neg_ℤ a)) (omega (arith, magnitude-neg_ℤ a))

pub sub-cents :
    (a b : ℤ) → magnitude (a +ℤ neg_ℤ b) < limit → sub (cents a) (cents b) ≡ cents (a +ℤ neg_ℤ b)
unfolding sub
sub-cents a b h = rw (with_sign_self a, with_sign_self b) (fix_small (cents (a +ℤ neg_ℤ b)) h)

pub abs-cents : (a : ℤ) → magnitude a < limit → abs (cents a) ≡ cents (pos (magnitude a))
unfolding abs
abs-cents a h = fix_small (cents (pos (magnitude a))) h

pub quantize-cents : (a : ℤ) → magnitude a < limit → quantize 2 (cents a) ≡ ok (cents a)
unfolding quantize quantum
quantize-cents (pos n) h = ground arith
quantize-cents (negsuc n) h = ground arith

pub neg-zero : neg (whole 0) ≡ whole 0
unfolding computing
neg-zero = refl

pub quantize-zero : quantize 2 (whole 0) ≡ ok (cents (pos 0))
unfolding computing
quantize-zero = refl
