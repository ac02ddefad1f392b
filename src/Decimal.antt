-- ===== src/Decimal.antt =====
-- Python's `decimal` as the program uses it, under the default context: 28 significant digits,
-- ROUND_HALF_EVEN for arithmetic, ROUND_HALF_UP where a `quantize` asks for it. A number is
-- coeff / 10 ^ scale. Signed zeros, NaN, infinities and the digits that a text shows are left out.
mod Digits
pub mod Quantize
pub mod Equality
pub mod Exact
mod Tests
unfoldable pub use Digits.*
use payroll_management_syste.Prelude.{
  ℕ, zero, suc, ◌+◌, ◌-◌, ◌*◌, ◌/◌, ◌%◌, ◌^◌, ◌≡◌, refl, Bool, max, ltb, leb, ◌==◌, if◌then◌else◌,
}
use payroll_management_syste.Prelude.Int.{
  ℤ, pos, negsuc, magnitude, with_sign, with_signs, ◌+ℤ◌, neg_ℤ, leb_ℤ, ltb_ℤ,
}
use payroll_management_syste.Outcome.{Result, ok, err, invalid_operation, division_by_zero}

pub record Decimal : Type 0 where
  pub coeff : ℤ
  pub scale : ℕ

-- A number with that many decimal places.
abbrev pub decimal : ℤ → ℕ → Decimal
decimal c s = record { coeff = c; scale = s }

abbrev pub whole : ℕ → Decimal
whole n = decimal (pos n) 0

-- An amount in whole cents.
abbrev pub cents : ℤ → Decimal
cents c = decimal c 2

-- The same value with `j` fewer decimal places, for a coefficient already divided by 10 ^ j.
abbrev lower : ℤ → ℕ → ℕ → Decimal
lower c s j =
    if leb j s then decimal c (s - j) else decimal (with_sign c (magnitude c * 10 ^ (j - s))) 0

-- The context's rounding of a result to 28 significant digits.
unfoldable pub fix : Decimal → Decimal
fix d =
    let m = magnitude d.coeff in
    if ltb m limit
    then d
    else let j = excess m m in lower (with_sign d.coeff (half_even m (10 ^ j))) d.scale j

-- The coefficient at a larger scale.
abbrev pub scaled : Decimal → ℕ → ℤ
scaled d s = with_sign d.coeff (magnitude d.coeff * 10 ^ (s - d.scale))

unfoldable pub add : Decimal → Decimal → Decimal
add a b = let s = max a.scale b.scale in fix (decimal (scaled a s +ℤ scaled b s) s)

unfoldable pub neg : Decimal → Decimal
neg a = fix (decimal (neg_ℤ a.coeff) a.scale)

unfoldable pub sub : Decimal → Decimal → Decimal
sub a b = let s = max a.scale b.scale in fix (decimal (scaled a s +ℤ neg_ℤ (scaled b s)) s)

unfoldable pub abs : Decimal → Decimal
abs a = fix (decimal (pos (magnitude a.coeff)) a.scale)

unfoldable pub mul : Decimal → Decimal → Decimal
mul a b = fix (
    decimal (with_signs a.coeff b.coeff (magnitude a.coeff * magnitude b.coeff))
      (a.scale + b.scale))

-- An exact quotient loses the zeros at its end, as far as the shift gave them.
unfoldable pub reduced : ℕ → ℕ → ℕ × ℕ
reduced zero c = (c, 0)
reduced (suc shift) c =
    let rest = reduced shift (c / 10) in if c % 10 == 0 then rest else (c, suc shift)

-- A quotient of 29 or 30 digits, and the shift that is left in it; a remainder is kept in the last
-- digit for the rounding.
unfoldable pub quotient : ℕ → ℕ → ℕ → ℕ × ℕ
quotient n d shift =
    let q = n / d in
    if n % d == 0 then reduced shift q else (if q % 5 == 0 then (q + 1, shift) else (q, shift))

-- The digits that the dividend is shifted by.
unfoldable pub quotient_shift : ℕ → ℕ → ℕ
quotient_shift m n = digit_count n n + 29 - digit_count m m

unfoldable pub div : Decimal → Decimal → Result Decimal
div a b =
    let m = magnitude a.coeff in
    let n = magnitude b.coeff in
    let shift = quotient_shift m n in
    let (q, left) = quotient (m * 10 ^ shift) n shift in
    let c = with_signs a.coeff b.coeff q in
    let s = left + a.scale in
    if n == 0
    then err (if m == 0 then invalid_operation else division_by_zero)
    else ok (
        fix (
          if leb b.scale s
          then decimal c (s - b.scale)
          else decimal (with_sign c (magnitude c * 10 ^ (b.scale - s))) 0))

-- The magnitude of a `quantize` to that many places.
unfoldable pub quantum : ℕ → Decimal → ℕ
quantum places d =
    let m = magnitude d.coeff in
    if leb d.scale places then m * 10 ^ (places - d.scale) else half_up m (10 ^ (d.scale - places))

-- `value.quantize(Decimal(...), rounding=ROUND_HALF_UP)` to that many places.
unfoldable pub quantize : ℕ → Decimal → Result Decimal
quantize places d =
    if ltb (quantum places d) limit
    then ok (decimal (with_sign d.coeff (quantum places d)) places)
    else err invalid_operation

-- Comparisons are exact.
abbrev pub le : Decimal → Decimal → Bool
le a b = let s = max a.scale b.scale in leb_ℤ (scaled a s) (scaled b s)

abbrev pub lt : Decimal → Decimal → Bool
lt a b = let s = max a.scale b.scale in ltb_ℤ (scaled a s) (scaled b s)

-- `min(a, b)` and `max(a, b)` return the first of two equal arguments.
unfoldable pub min_of : Decimal → Decimal → Decimal
min_of a b = if lt b a then b else a

unfoldable pub max_of : Decimal → Decimal → Decimal
max_of a b = if lt a b then b else a

abbrev pub is_zero : Decimal → Bool
is_zero a = magnitude a.coeff == 0

-- All that a computation with numbers unfolds.
unfoldable pub computing : Unit {0}
unfolding half_even half_up excess digit_count fix add neg sub abs mul reduced quotient
    quotient_shift div quantum quantize min_of max_of ◌+ℤ◌ neg_ℤ
computing = tt
