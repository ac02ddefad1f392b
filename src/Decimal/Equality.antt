-- ===== src/Decimal/Equality.antt =====
-- `==` on decimals, which compares their values: 1.0 equals 1.00.
use native.Mathlib.Nat.{mul-div_cancel, one-le-pow}
use payroll_management_syste.Prelude.{
  ℕ, ◌*◌, ◌/◌, ◌^◌, ◌<◌, ◌≡◌, sym, ap, ◌∙◌, Bool, true, false, ◌&&◌, arith, ◌==◌, ==_iff,
}
use payroll_management_syste.Prelude.Compared.{
  Test, IsStable, bool_same, bool_same-IsStable, &&-split,
}
use payroll_management_syste.Prelude.Int.{ℤ, pos, negsuc, magnitude}
use payroll_management_syste.Decimal.{Decimal}

abbrev pub is_negative : ℤ → Bool
is_negative (pos _) = false
is_negative (negsuc _) = true

-- Equal signs, and equal cross products.
abbrev pub value_same : Test Decimal
value_same a b =
    bool_same (is_negative a.coeff) (is_negative b.coeff)
    && magnitude a.coeff * 10 ^ b.scale == magnitude b.coeff * 10 ^ a.scale

cross : (l m n a b c : ℕ) → 0 < b → l * b ≡ m * a → m * c ≡ n * b → l * c ≡ n * a
cross l m n a b c positive h k =
    let swap : (x y z : ℕ) → x * y * z ≡ x * z * y = λ x y z. grind arith in
    let left = swap l c b ∙ ap (λ x. x * c) h in
    let right = swap n a b ∙ ap (λ x. x * a) (sym k) in
    let both = left ∙ swap m a c ∙ sym right in
    sym (mul-div_cancel (l * c) positive) ∙ ap (λ x. x / b) both ∙ mul-div_cancel (n * a) positive

pub value_same-IsStable : IsStable value_same
value_same-IsStable = (
  λ x. rw (bool_same-IsStable.0 (is_negative x.coeff)) (ground arith),
  λ x y z h k.
      let (a, p) = &&-split _ _ h in
      let (b, q) = &&-split _ _ k in
      let signs =
        bool_same-IsStable.1 (is_negative x.coeff) (is_negative y.coeff) (is_negative z.coeff) a
          b in
      let sizes =
        cross (magnitude x.coeff) (magnitude y.coeff) (magnitude z.coeff) (10 ^ x.scale)
          (10 ^ y.scale) (10 ^ z.scale) (omega (arith, one-le-pow y.scale 10)) ((==_iff _ _).0 p)
          ((==_iff _ _).0 q) in
      rw signs ((==_iff _ _).1 sizes),
)
