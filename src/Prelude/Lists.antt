-- ===== src/Prelude/Lists.antt =====
-- Lists measured and searched by Boolean tests, over the native numbers.
use Prim.Native.Nat.{ℕ, suc, ◌+◌}
use mathlib.Core.Bool.{Bool, true, false, ◌||◌, ◌&&◌}
use mathlib.Core.Path.{◌≡◌, refl, ap}
use mathlib.Core.Option.{some-injective, Option, none, some}
use mathlib.Core.List.{List, [], ◌∷◌, ◌++◌}
use native.Mathlib.Omega.{arith}
use payroll_management_syste.Prelude.Tests.{if◌then◌else◌, Bool-cases}
use mathlib.Core.Logic.{◌⊎◌, inl, inr}

module _ {ℓ} {A : Type ℓ} where
  abbrev pub length : List A → ℕ
  length [] = 0
  length (x ∷ xs) = suc (length xs)

  pub length-append : (xs ys : List A) → length (xs ++ ys) ≡ length xs + length ys
  length-append [] ys = omega arith
  length-append (x ∷ xs) ys = omega (arith, length-append xs ys)

  -- `any(test(x) for x in xs)`
  abbrev pub any : (A → Bool) → List A → Bool
  any test [] = false
  any test (x ∷ xs) = test x || any test xs

  -- `all(test(x) for x in xs)`
  abbrev pub all : (A → Bool) → List A → Bool
  all test [] = true
  all test (x ∷ xs) = test x && all test xs

  -- `[x for x in xs if test(x)]`
  abbrev pub select : (A → Bool) → List A → List A
  select test [] = []
  select test (x ∷ xs) = let rest = select test xs in if test x then x ∷ rest else rest

  -- `queryset.filter(test).first()`
  abbrev pub find : (A → Bool) → List A → Option A
  find test [] = none
  find test (x ∷ xs) = if test x then some x else find test xs

  -- `queryset.filter(test).update(change)`
  abbrev pub update_where : (A → Bool) → (A → A) → List A → List A
  update_where test change [] = []
  update_where test change (x ∷ xs) = (if test x then change x else x) ∷ update_where test change xs

  pub length-update_where :
      (test : A → Bool) (change : A → A) (xs : List A)
      → length (update_where test change xs) ≡ length xs
  length-update_where test change [] = refl
  length-update_where test change (x ∷ xs) = omega (arith, length-update_where test change xs)

  -- A predicate of every element.
  abbrev pub All {κ} : (A → Type κ) → List A → Type κ
  All P [] = Unit
  All P (x ∷ xs) = P x × All P xs

  pub All-append {κ} : (P : A → Type κ) (xs ys : List A) → All P xs → All P ys → All P (xs ++ ys)
  All-append P [] ys _ q = q
  All-append P (x ∷ xs) ys (p, ps) q = (p, All-append P xs ys ps q)

  pub any-append :
      (test : A → Bool) (xs ys : List A) → any test (xs ++ ys) ≡ (any test xs || any test ys)
  any-append test [] ys = refl
  any-append test (x ∷ xs) ys = ground (arith, any-append test xs ys)

  pub select-append :
      (test : A → Bool) (xs ys : List A) → select test (xs ++ ys) ≡ select test xs ++ select test ys
  select-append test [] ys = refl
  select-append test (x ∷ xs) ys = ground (arith, select-append test xs ys)

  pub All-select {κ} :
      (P : A → Type κ) (test : A → Bool) (xs : List A) → All P xs → All P (select test xs)
  All-select P test [] h = tt
  All-select P test (x ∷ xs) (p, ps) = elim (Bool-cases (test x)) [
    | inl t ↦ rw t (p, All-select P test xs ps)
    | inr f ↦ rw f (All-select P test xs ps)
  ]

  -- An update that keeps the test changes what `find` returns, and nothing else of it.
  pub find-update_where :
      (test : A → Bool) (change : A → A) (xs : List A) (p : A)
      → ((x : A) → test (change x) ≡ test x)
      → find test xs ≡ some p
      → find test (update_where test change xs) ≡ some (change p)
  find-update_where test change [] p keep e = cc
  find-update_where test change (x ∷ xs) p keep e = elim (Bool-cases (test x)) [
    | inl t ↦ rw (t, keep x, t) (ap (λ q. some (change q)) (some-injective _ _ (rw t at e)))
    | inr f ↦ rw (f, f) (find-update_where test change xs p keep (rw f at e))
  ]

  pub find-update_where_other :
      (test other : A → Bool) (change : A → A) (xs : List A)
      → ((x : A) → other (change x) ≡ other x)
      → ((x : A) → test x ≡ true → other x ≡ false)
      → find other (update_where test change xs) ≡ find other xs
  find-update_where_other test other change [] keep apart = refl
  find-update_where_other test other change (x ∷ xs) keep apart = elim (Bool-cases (test x)) [
    | inl t ↦ rw (t, keep x, apart x t) (find-update_where_other test other change xs keep apart)
    | inr f ↦ rw (f, find-update_where_other test other change xs keep apart)
  ]

  pub find_sound : (test : A → Bool) (xs : List A) (y : A) → find test xs ≡ some y → test y ≡ true
  find_sound test [] y e = cc
  find_sound test (x ∷ xs) y e = ground (arith, find_sound test xs y)

  pub find-none : (test : A → Bool) (xs : List A) → any test xs ≡ false → find test xs ≡ none
  find-none test [] e = refl
  find-none test (x ∷ xs) e = ground (arith, find-none test xs)

  pub any-none : (test : A → Bool) (xs : List A) → find test xs ≡ none → any test xs ≡ false
  any-none test [] e = refl
  any-none test (x ∷ xs) e = ground (arith, any-none test xs)

  pub find-append_new :
      (test : A → Bool) (xs : List A) (x : A)
      → find test xs ≡ none
      → test x ≡ true
      → find test (xs ++ x ∷ []) ≡ some x
  find-append_new test [] x e t = ground arith
  find-append_new test (y ∷ xs) x e t = ground (arith, find-append_new test xs x)

module _ {A : Type 0} where
  -- `x in xs`
  abbrev pub Elem : A → List A → Type 0
  Elem x [] = ⊥
  Elem x (y ∷ ys) = (x ≡ y) ⊎ Elem x ys

  pub find-Elem : (test : A → Bool) (xs : List A) (y : A) → find test xs ≡ some y → Elem y xs
  find-Elem test [] y e = cc
  find-Elem test (x ∷ xs) y e = elim (Bool-cases (test x)) [
    | inl t ↦ inl (ground arith)
    | inr f ↦ inr (find-Elem test xs y (ground arith))
  ]

  pub Elem-any :
      (test : A → Bool) (xs : List A) (y : A) → Elem y xs → test y ≡ true → any test xs ≡ true
  Elem-any test [] y m t = elim m [ ]
  Elem-any test (x ∷ xs) y (inl e) t = rw (← e, t)
  Elem-any test (x ∷ xs) y (inr m) t = ground (arith, Elem-any test xs y m t)

  Elem-kept :
      (test : A → Bool) (x : A) (xs : List A) (a : A)
      → (Elem a (select test xs) → Elem a xs × (test a ≡ true))
      → test x ≡ true
      → Elem a (x ∷ select test xs)
      → Elem a (x ∷ xs) × (test a ≡ true)
  Elem-kept test x xs a rest t (inl e) = (inl e, rw e t)
  Elem-kept test x xs a rest t (inr n) = let (old, holds) = rest n in (inr old, holds)

  pub Elem-select :
      (test : A → Bool) (xs : List A) (a : A)
      → Elem a (select test xs)
      → Elem a xs × (test a ≡ true)
  Elem-select test [] a m = elim m [ ]
  Elem-select test (x ∷ xs) a m = elim (Bool-cases (test x)) [
    | inl t ↦ Elem-kept test x xs a (Elem-select test xs a) t (rw t at m)
    | inr f ↦ let (old, holds) = Elem-select test xs a (rw f at m) in (inr old, holds)
  ]

  pub select-Elem :
      (test : A → Bool) (xs : List A) (a : A) → Elem a xs → test a ≡ true → Elem a (select test xs)
  select-Elem test [] a m t = elim m [ ]
  select-Elem test (x ∷ xs) a (inl e) t = rw (← e, t) (inl refl)
  select-Elem test (x ∷ xs) a (inr m) t = elim (Bool-cases (test x)) [
    | inl keep ↦ rw keep (inr (select-Elem test xs a m t))
    | inr drop ↦ rw drop (select-Elem test xs a m t)
  ]

  pub select-All :
      (P : A → Type 0) (test : A → Bool) (xs : List A)
      → All P (select test xs)
      → All (λ x. test x ≡ true → P x) xs
  select-All P test [] h = tt
  select-All P test (x ∷ xs) h = elim (Bool-cases (test x)) [
    | inl t ↦
        let both : P x × All P (select test xs) = rw t at h in
        (λ _. both.0, select-All P test xs both.1)
    | inr f ↦ (λ t. cc, select-All P test xs (rw f at h))
  ]

  pub All-map : (P Q : A → Type 0) (xs : List A) → ((x : A) → P x → Q x) → All P xs → All Q xs
  All-map P Q [] f h = tt
  All-map P Q (x ∷ xs) f (p, ps) = (f x p, All-map P Q xs f ps)

  pub Elem-append_left : (x : A) (xs ys : List A) → Elem x xs → Elem x (xs ++ ys)
  Elem-append_left x [] ys m = elim m [ ]
  Elem-append_left x (z ∷ xs) ys (inl e) = inl e
  Elem-append_left x (z ∷ xs) ys (inr m) = inr (Elem-append_left x xs ys m)

  pub Elem-append_right : (x : A) (xs ys : List A) → Elem x ys → Elem x (xs ++ ys)
  Elem-append_right x [] ys m = m
  Elem-append_right x (z ∷ xs) ys m = inr (Elem-append_right x xs ys m)

  -- An element of an updated list comes from one of the list.
  pub Elem-update_where :
      (test : A → Bool) (change : A → A) (xs : List A) (y : A)
      → Elem y (update_where test change xs)
      → (x : A) × Elem x xs × (((test x ≡ true) × (y ≡ change x)) ⊎ ((test x ≡ false) × (y ≡ x)))
  Elem-update_where test change [] y m = elim m [ ]
  Elem-update_where test change (x ∷ xs) y (inl e) = elim (Bool-cases (test x)) [
    | inl t ↦ (x, inl refl, inl (t, rw t at e))
    | inr f ↦ (x, inl refl, inr (f, rw f at e))
  ]
  Elem-update_where test change (x ∷ xs) y (inr m) =
      let (z, n, way) = Elem-update_where test change xs y m in (z, inr n, way)
