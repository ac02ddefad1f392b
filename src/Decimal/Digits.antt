-- ===== src/Decimal/Digits.antt =====
-- Rounding and counting of decimal digits, as `decimal` does it on coefficients.
use payroll_management_syste.Prelude.{
  ℕ, zero, suc, ◌+◌, ◌*◌, ◌/◌, ◌%◌, ◌^◌, true, false, ltb, if◌then◌else◌,
}

-- Coefficients below this have 28 digits at most.
abbrev pub limit : ℕ
limit = 10 ^ 28

-- m / d rounded to the nearest whole number, and a tie to the even one.
unfoldable pub half_even : ℕ → ℕ → ℕ
half_even m d =
    let q = m / d in
    let r = m % d in if ltb (2 * r) d then q else if ltb d (2 * r) then q + 1 else q + q % 2

-- m / d rounded to the nearest whole number, and a tie away from zero.
unfoldable pub half_up : ℕ → ℕ → ℕ
half_up m d = let q = m / d in let r = m % d in if ltb (2 * r) d then q else q + 1

-- How many digits `m` has beyond 28. The first argument is fuel.
unfoldable pub excess : ℕ → ℕ → ℕ
excess zero m = 0
excess (suc f) m = elim (ltb m limit) [ true ↦ 0 | false ↦ suc (excess f (m / 10)) ]

-- How many digits `m` has. The first argument is fuel.
unfoldable pub digit_count : ℕ → ℕ → ℕ
digit_count zero m = 1
digit_count (suc f) m = elim (ltb m 10) [ true ↦ 1 | false ↦ suc (digit_count f (m / 10)) ]
