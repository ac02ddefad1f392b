-- ===== src/Prelude/Keyed.antt =====
-- Tables whose rows are told apart by a key, as a primary key tells them apart.
use Prim.Native.Nat.{ℕ, ◌+◌, ◌<◌}
use mathlib.Core.Path.{◌≡◌, sym, ap, ◌∙◌}
use mathlib.Core.Logic.{◌⊎◌, inl, inr}
use mathlib.Core.List.{List, [], ◌∷◌, ◌++◌}
use native.Mathlib.Omega.{arith}
use payroll_management_syste.Prelude.Tests.{◌==◌, ==_iff}
use payroll_management_syste.Prelude.Lists.{Elem, update_where, Elem-update_where}

pub Elem-single : {A : Type 0} (y x : A) (xs : List A) → Elem y (xs ++ x ∷ []) → Elem y xs ⊎ (y ≡ x)
Elem-single y x [] (inl e) = inr e
Elem-single y x [] (inr m) = elim m [ ]
Elem-single y x (z ∷ xs) (inl e) = inl (inl e)
Elem-single y x (z ∷ xs) (inr m) = elim (Elem-single y x xs m) [
  | inl old ↦ inl (inr old)
  | inr new ↦ inr new
]

module _ {A : Type 0} (key : A → ℕ) where
  -- No two rows have the same key, and all keys are below the next one.
  abbrev pub IsKeyed : ℕ → List A → Type 0
  IsKeyed next xs =
      ((x y : A) → Elem x xs → Elem y xs → key x ≡ key y → x ≡ y)
      × ((x : A) → Elem x xs → key x < next)

  pub IsKeyed-append :
      (next : ℕ) (xs : List A) (x : A)
      → key x ≡ next
      → IsKeyed next xs
      → IsKeyed (next + 1) (xs ++ x ∷ [])
  IsKeyed-append next xs x fresh (once, below) = (
    λ a b m n same. elim (Elem-single a x xs m) [
      | inl old ↦ elim (Elem-single b x xs n) [
        | inl old' ↦ once a b old old' same
        | inr e ↦ absurd (omega (arith, below a old, ap key e))
      ]
      | inr e ↦ elim (Elem-single b x xs n) [
        | inl old' ↦ absurd (omega (arith, below b old', ap key e))
        | inr e' ↦ e ∙ sym e'
      ]
    ],
    λ a m. elim (Elem-single a x xs m) [
      | inl old ↦ omega (arith, below a old)
      | inr e ↦ omega (arith, ap key e)
    ],
  )

  -- An update of the row with a key comes from the row of that key.
  pub IsKeyed-update_where :
      (next k : ℕ) (change : A → A) (xs : List A)
      → ((x : A) → key (change x) ≡ key x)
      → IsKeyed next xs
      → IsKeyed next (update_where (λ x. key x == k) change xs)
  IsKeyed-update_where next k change xs keep (once, below) = (
    λ a b m n same.
        let (x, old, way) = Elem-update_where (λ x. key x == k) change xs a m in
        let (y, old', way') = Elem-update_where (λ x. key x == k) change xs b n in
        elim way [
          | inl (t, e) ↦ elim way' [
            | inl (t', e') ↦
                e
                ∙ ap change (once x y old old' ((==_iff _ _).0 t ∙ sym ((==_iff _ _).0 t')))
                ∙ sym e'
            | inr (f', e') ↦
                let equal : key y ≡ k =
                  ap key (sym e') ∙ sym same ∙ ap key e ∙ keep x ∙ (==_iff _ _).0 t in
                let clash = (==_iff (key y) k).1 equal in cc
          ]
          | inr (f, e) ↦ elim way' [
            | inl (t', e') ↦
                let equal : key x ≡ k =
                  ap key (sym e) ∙ same ∙ ap key e' ∙ keep y ∙ (==_iff _ _).0 t' in
                let clash = (==_iff (key x) k).1 equal in cc
            | inr (f', e') ↦ e ∙ once x y old old' (ap key (sym e) ∙ same ∙ ap key e') ∙ sym e'
          ]
        ],
    λ a m.
        let (x, old, way) = Elem-update_where (λ x. key x == k) change xs a m in
        elim way [
          | inl (t, e) ↦ omega (arith, below x old, ap key e, keep x)
          | inr (f, e) ↦ omega (arith, below x old, ap key e)
        ],
  )
