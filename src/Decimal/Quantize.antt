-- ===== src/Decimal/Quantize.antt =====
-- `quantize` with ROUND_HALF_UP against its meaning: the nearest number with those places.
use native.Mathlib.Nat.{mul-le-mul_right, pow-suc, one-le-pow, add-zero, add-suc}
use payroll_management_syste.Prelude.{
  ℕ, zero, suc, ◌+◌, ◌-◌, ◌*◌, ◌^◌, ◌≤◌, ◌<◌, ◌≡◌, refl, inl, inr, arith, ap, leb, Bool-cases,
}
use payroll_management_syste.Prelude.Int.{ℤ, pos, negsuc, magnitude, with_sign}
use payroll_management_syste.Outcome.{ok}
use payroll_management_syste.Decimal.{Decimal, limit, decimal, half_up, quantum, quantize}

-- The distance of `half_up` from the exact quotient is at most one half, and a tie goes up.
pub half_up_nearest :
    (m d : ℕ) → 0 < d → (2 * m < 2 * (half_up m d * d) + d) × (2 * (half_up m d * d) ≤ 2 * m + d)
unfolding half_up
half_up_nearest m d h = grind arith

ten_pow_pos : (n : ℕ) → 0 < 10 ^ n
ten_pow_pos n = one-le-pow n 10 (omega arith)

ten_pow_add : (a b : ℕ) → 10 ^ (a + b) ≡ 10 ^ a * 10 ^ b
ten_pow_add a zero = rw (add-zero a) (omega arith)
ten_pow_add a (suc b) =
    rw (add-suc a b, pow-suc 10 (a + b), pow-suc 10 b)
      (omega (arith, ap (λ (t : ℕ). t * 10) (ten_pow_add a b)))

split_pow : (s p : ℕ) → s ≤ p → 10 ^ p ≡ 10 ^ (p - s) * 10 ^ s
split_pow s p h = rw (← ten_pow_add (p - s) s) (ap (λ t. 10 ^ t) (omega arith))

scaled_nearest :
    (m q d k : ℕ)
    → (2 * m < 2 * (q * d) + d) × (2 * (q * d) ≤ 2 * m + d)
    → 0 < k
    → (2 * (m * k) < 2 * (q * (d * k)) + d * k) × (2 * (q * (d * k)) ≤ 2 * (m * k) + d * k)
scaled_nearest m q d k h pk = omega (arith, mul-le-mul_right k h.0, mul-le-mul_right k h.1)

-- The value of `r`, with `places` decimals, lies within half a unit of its last place of the value
-- of `d`, on the same side of zero, and a tie is rounded away from zero.
abbrev pub IsNearest : ℕ → Decimal → ℤ → Type 0
IsNearest places d r =
    let m = magnitude d.coeff * 10 ^ places in
    let n = magnitude r * 10 ^ d.scale in
    (2 * m < 2 * n + 10 ^ d.scale)
    × (2 * n ≤ 2 * m + 10 ^ d.scale)
    × (r ≡ with_sign d.coeff (magnitude r))

-- With enough places nothing is lost.
quantum_exact :
    (m s p : ℕ)
    → s ≤ p
    → let n = m * 10 ^ (p - s) * 10 ^ s in
      (2 * (m * 10 ^ p) < 2 * n + 10 ^ s) × (2 * n ≤ 2 * (m * 10 ^ p) + 10 ^ s)
quantum_exact m s p h = omega (arith, ap (λ (t : ℕ). m * t) (split_pow s p h), ten_pow_pos s)

quantum_rounded :
    (m s p : ℕ)
    → p ≤ s
    → let n = half_up m (10 ^ (s - p)) * 10 ^ s in
      (2 * (m * 10 ^ p) < 2 * n + 10 ^ s) × (2 * n ≤ 2 * (m * 10 ^ p) + 10 ^ s)
quantum_rounded m s p h = rw (split_pow p s h) (
    scaled_nearest m (half_up m (10 ^ (s - p))) (10 ^ (s - p)) (10 ^ p)
      (half_up_nearest m (10 ^ (s - p)) (ten_pow_pos (s - p))) (ten_pow_pos p))

quantum_nearest :
    (places : ℕ) (d : Decimal)
    → let m = magnitude d.coeff * 10 ^ places in
      let n = quantum places d * 10 ^ d.scale in
      (2 * m < 2 * n + 10 ^ d.scale) × (2 * n ≤ 2 * m + 10 ^ d.scale)
unfolding quantum
quantum_nearest places d = elim (Bool-cases (leb d.scale places)) [
  | inl up ↦ rw up (quantum_exact (magnitude d.coeff) d.scale places (ground arith))
  | inr down ↦ rw down (quantum_rounded (magnitude d.coeff) d.scale places (ground arith))
]

magnitude-with_sign : (c : ℤ) (m : ℕ) → magnitude (with_sign c m) ≡ m
magnitude-with_sign (pos n) m = refl
magnitude-with_sign (negsuc n) zero = refl
magnitude-with_sign (negsuc n) (suc m) = refl

quantize_inversion :
    (places : ℕ) (d r : Decimal)
    → quantize places d ≡ ok r
    → (r ≡ decimal (with_sign d.coeff (quantum places d)) places) × (quantum places d < limit)
unfolding quantize
quantize_inversion places d r h = ground arith

-- A `quantize` that returns gives a number with the places asked for, of at most 28 digits, that is
-- nearest to the argument, and of two nearest ones the one further from zero.
pub quantize-IsNearest :
    (places : ℕ) (d : Decimal) (r : Decimal)
    → quantize places d ≡ ok r
    → (r.scale ≡ places) × (magnitude r.coeff < limit) × IsNearest places d r.coeff
unfolding quantize
quantize-IsNearest places d r h =
    let (same, small) = quantize_inversion places d r h in
    let near = quantum_nearest places d in
    rw (same, magnitude-with_sign d.coeff (quantum places d)) (refl, small, (near.0, near.1, refl))
