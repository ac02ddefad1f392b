-- ===== src/Effective.antt =====
-- Effective-dated records: `EffectiveDatedOrganizationModel.as_of` of apps/organizations/models.py
-- and the queries `order_by("-effective_from", "-pk").first()` over such records. A date is its
-- ordinal.
pub mod Newest
use payroll_management_syste.Prelude.{
  ◌≤◌, true, ℕ, ◌≡◌, refl, subst, inl, inr, Bool, false, ◌&&◌, ◌||◌, Option, none, some, List, [],
  ◌∷◌, arith, ltb, leb, ◌==◌, if◌then◌else◌, Bool-cases, Option-cases, All, Elem,
}

-- `effective_from <= date and (effective_to is None or effective_to >= date)`
abbrev pub is_effective : ℕ → Option ℕ → ℕ → Bool
is_effective start none date = leb start date
is_effective start (some stop) date = leb start date && leb date stop

pub effective_sound :
    (start : ℕ) (stop : Option ℕ) (date : ℕ)
    → is_effective start stop date ≡ true
    → (start ≤ date) × ((s : ℕ) → stop ≡ some s → date ≤ s)
effective_sound start none date h = (ground arith, λ s e. cc)
effective_sound start (some t) date h = (ground arith, λ s e. ground arith)

pub effective_complete :
    (start : ℕ) (stop : Option ℕ) (date : ℕ)
    → start ≤ date
    → ((s : ℕ) → stop ≡ some s → date ≤ s)
    → is_effective start stop date ≡ true
effective_complete start none date h k = ground arith
effective_complete start (some t) date h k = let inside = k t refl in ground arith

module _ {A : Type 0} (effective_from pk : A → ℕ) where
  -- `a` comes before `b` in the descending order of start and key.
  abbrev pub is_later : A → A → Bool
  is_later a b =
      ltb (effective_from b) (effective_from a)
      || (effective_from a == effective_from b && ltb (pk b) (pk a))

  later : A → Option A → Option A
  later a none = some a
  later a (some b) = if is_later b a then some b else some a

  -- `queryset.order_by("-effective_from", "-pk").first()`
  unfoldable pub latest : List A → Option A
  unfolding later
  latest [] = none
  latest (x ∷ xs) = later x (latest xs)

  -- No record of the list comes before `a`.
  abbrev pub IsLatest : A → List A → Type 0
  IsLatest a = All (λ x. is_later x a ≡ false)

  pub latest-none : (xs : List A) → latest xs ≡ none → xs ≡ []
  unfolding latest
  latest-none [] e = refl
  latest-none (x ∷ xs) e = elim (Option-cases (latest xs)) [
    | inl absent ↦ ground arith
    | inr (y, found) ↦ ground arith
  ]

  IsLatest-trans : (a b : A) (xs : List A) → is_later b a ≡ false → IsLatest b xs → IsLatest a xs
  IsLatest-trans a b [] h l = tt
  IsLatest-trans a b (x ∷ xs) h (p, l) = (ground arith, IsLatest-trans a b xs h l)

  -- The record found is one of the list, and none comes before it.
  pub latest-IsLatest : (xs : List A) (a : A) → latest xs ≡ some a → Elem a xs × IsLatest a xs
  unfolding latest
  latest-IsLatest [] a e = cc
  latest-IsLatest (x ∷ xs) a e = elim (Option-cases (latest xs)) [
    | inl absent ↦
        let alone : x ≡ a = ground arith in
        let nil = latest-none xs absent in
        subst (λ z. Elem z (x ∷ xs) × IsLatest z (x ∷ xs)) alone
          (inl refl, (ground arith, rw nil tt))
    | inr (b, found) ↦
        let (mem, top) = latest-IsLatest xs b found in
        elim (Bool-cases (is_later b x)) [
          | inl after ↦
              let same : b ≡ a = ground arith in
              subst (λ z. Elem z (x ∷ xs) × IsLatest z (x ∷ xs)) same (inr mem, (ground arith, top))
          | inr before ↦
              let same : x ≡ a = ground arith in
              subst (λ z. Elem z (x ∷ xs) × IsLatest z (x ∷ xs)) same
                (inl refl, (ground arith, IsLatest-trans x b xs before top))
        ]
  ]
