-- ===== src/Prelude/Updates.antt =====
-- What an update of the rows that pass a test does to a list: to those rows, and to the others.
use mathlib.Core.Bool.{Bool, true, not}
use mathlib.Core.Path.{◌≡◌, refl}
use mathlib.Core.Logic.{inl, inr}
use mathlib.Core.List.{List, [], ◌∷◌}
use payroll_management_syste.Prelude.Tests.{Bool-cases}
use payroll_management_syste.Prelude.Lists.{All, select, update_where}
use payroll_management_syste.Prelude.{map}

module _ {A : Type 0} (test : A → Bool) (change : A → A)
    (keep : (x : A) → test (change x) ≡ test x) where
  -- The rows that pass the test have what the change gives.
  pub All-updated :
      (P : A → Type 0) (xs : List A)
      → ((x : A) → P (change x))
      → All (λ y. test y ≡ true → P y) (update_where test change xs)
  All-updated P [] given = tt
  All-updated P (x ∷ xs) given = elim (Bool-cases (test x)) [
    | inl t ↦ rw t (λ _. given x, All-updated P xs given)
    | inr f ↦ rw f (λ t. cc, All-updated P xs given)
  ]

  -- The other rows are the same, in the same order.
  pub select-updated_others :
      (xs : List A)
      → select (λ y. not (test y)) (update_where test change xs) ≡ select (λ y. not (test y)) xs
  select-updated_others [] = refl
  select-updated_others (x ∷ xs) = elim (Bool-cases (test x)) [
    | inl t ↦ rw (t, keep x, t) (select-updated_others xs)
    | inr f ↦ rw (f, f, select-updated_others xs) refl
  ]

-- What a change leaves alone in a row, an update leaves alone in every row.
pub map-update_where :
    {A B : Type 0} (f : A → B) (test : A → Bool) (change : A → A) (xs : List A)
    → ((x : A) → f (change x) ≡ f x)
    → map f (update_where test change xs) ≡ map f xs
map-update_where f test change [] keep = refl
map-update_where f test change (x ∷ xs) keep = elim (Bool-cases (test x)) [
  | inl t ↦ rw (t, keep x, map-update_where f test change xs keep) refl
  | inr no_test ↦ rw (no_test, map-update_where f test change xs keep) refl
]
