-- ===== src/Effective/Newest.antt =====
-- The first record in descending order among those that a test admits, said without the test.
use payroll_management_syste.Prelude.{
  sym, ℕ, ◌≤◌, ◌≡◌, subst, inl, inr, Bool, true, false, Option, none, some, List, [], ◌∷◌, arith,
  select, Elem, All, Elem-select, select-Elem,
}
use payroll_management_syste.Effective.{latest, latest-none, latest-IsLatest, is_later}

-- The date lies in the period, which may be open at its end.
abbrev pub IsWithin : ℕ → Option ℕ → ℕ → Type 0
IsWithin start stop date = (start ≤ date) × ((s : ℕ) → stop ≡ some s → date ≤ s)

module _ {A : Type 0} (effective_from pk : A → ℕ) (Q : A → Type 0) where
  -- Of the records with the property, this one starts last, and has the largest key of those that
  -- start with it.
  abbrev pub IsNewest : A → List A → Type 0
  IsNewest a xs =
      Elem a xs
      × Q a
      × ((x : A)
          → Elem x xs
          → Q x
          → (effective_from x ≤ effective_from a)
            × (effective_from x ≡ effective_from a → pk x ≤ pk a))

  at_element : (P : A → Type 0) (xs : List A) (x : A) → All P xs → Elem x xs → P x
  at_element P [] x ps m = elim m [ ]
  at_element P (y ∷ ys) x (p, ps) (inl e) = subst P (sym e) p
  at_element P (y ∷ ys) x (p, ps) (inr m) = at_element P ys x ps m

  not_later :
      (x a : A)
      → is_later effective_from pk x a ≡ false
      → (effective_from x ≤ effective_from a) × (effective_from x ≡ effective_from a → pk x ≤ pk a)
  not_later x a h = (ground arith, λ e. ground arith)

  module _ (test : A → Bool) (sound : (x : A) → test x ≡ true → Q x)
      (complete : (x : A) → Q x → test x ≡ true) where
    pub latest-IsNewest :
        (xs : List A) (a : A) → latest effective_from pk (select test xs) ≡ some a → IsNewest a xs
    latest-IsNewest xs a e =
        let (m, top) = latest-IsLatest effective_from pk (select test xs) a e in
        let (stored, holds) = Elem-select test xs a m in
        (
          stored,
          sound a holds,
          λ x n q. not_later x a (
              at_element (λ x. is_later effective_from pk x a ≡ false) (select test xs) x top
                (select-Elem test xs x n (complete x q))),
        )

    pub latest-Unmatched :
        (xs : List A)
        → latest effective_from pk (select test xs) ≡ none
        → (x : A) → Elem x xs
        → Q x
        → ⊥
    latest-Unmatched xs e x m q =
        subst (Elem x) (latest-none effective_from pk (select test xs) e)
          (select-Elem test xs x m (complete x q))
