-- ===== src/Prelude/Compared.antt =====
-- Guards that compare the fields of a stored row with a new one, and tables whose rows keep them.
use Prim.Native.Nat.{ℕ}
use mathlib.Core.Path.{◌≡◌, refl, sym, ap, ◌∙◌}
use mathlib.Core.Logic.{inl, inr}
use mathlib.Core.Bool.{Bool, true, false, not, ◌&&◌}
use mathlib.Core.Option.{Option, none, some, some-injective}
use mathlib.Core.List.{List, [], ◌∷◌, ◌++◌}
use native.Mathlib.Omega.{arith}
use payroll_management_syste.Prelude.Tests.{◌==◌, ==_iff, Bool-cases}
use payroll_management_syste.Prelude.Lists.{All, find, update_where}
use text.Mathlib.Text.{◌==◌ as str_eq}
use text.Mathlib.TextEquality.{eq_iff as str_eq_iff}

-- `==` on some part of two values.
abbrev pub Test : Type 0 → Type 0
Test A = A → A → Bool

abbrev pub IsStable : {A : Type 0} → Test A → Type 0
IsStable {A} t =
    ((x : A) → t x x ≡ true) × ((x y z : A) → t x y ≡ true → t y z ≡ true → t x z ≡ true)

-- A test of one field.
abbrev pub field_same : {A B : Type 0} → (A → B) → Test B → Test A
field_same f t x y = t (f x) (f y)

-- `not any(getattr(previous, field) != getattr(self, field) for field in fields)`
abbrev pub all_same : {A : Type 0} → List (Test A) → Test A
all_same [] x y = true
all_same (t ∷ ts) x y = t x y && all_same ts x y

abbrev pub list_same : {A : Type 0} → Test A → Test (List A)
list_same t [] [] = true
list_same t [] (y ∷ ys) = false
list_same t (x ∷ xs) [] = false
list_same t (x ∷ xs) (y ∷ ys) = t x y && list_same t xs ys

abbrev pub bool_same : Test Bool
bool_same true b = b
bool_same false b = not b

abbrev pub option_same : Test (Option ℕ)
option_same none none = true
option_same none (some b) = false
option_same (some a) none = false
option_same (some a) (some b) = a == b

pub &&-split : (a b : Bool) → (a && b) ≡ true → (a ≡ true) × (b ≡ true)
&&-split true true h = (refl, refl)
&&-split true false h = cc
&&-split false b h = cc

pub number-IsStable : IsStable ◌==◌
number-IsStable = (λ x. ground arith, λ x y z h k. ground arith)

pub text-IsStable : IsStable str_eq
text-IsStable = (
  λ x. (str_eq_iff x x).1 refl,
  λ x y z h k. (str_eq_iff x z).1 ((str_eq_iff x y).0 h ∙ (str_eq_iff y z).0 k),
)

pub bool_same-IsStable : IsStable bool_same
bool_same-IsStable = (reflexive, transitive)
  where
    reflexive : (x : Bool) → bool_same x x ≡ true
    reflexive true = refl
    reflexive false = refl

    transitive : (x y z : Bool) → bool_same x y ≡ true → bool_same y z ≡ true → bool_same x z ≡ true
    transitive true true z h k = k
    transitive true false z h k = cc
    transitive false true z h k = cc
    transitive false false z h k = k

pub option_same-IsStable : IsStable option_same
option_same-IsStable = (reflexive, transitive)
  where
    reflexive : (x : Option ℕ) → option_same x x ≡ true
    reflexive none = refl
    reflexive (some a) = number-IsStable.0 a

    transitive :
        (x y z : Option ℕ)
        → option_same x y ≡ true
        → option_same y z ≡ true
        → option_same x z ≡ true
    transitive none none z h k = k
    transitive none (some b) z h k = cc
    transitive (some a) none z h k = cc
    transitive (some a) (some b) none h k = cc
    transitive (some a) (some b) (some c) h k = number-IsStable.1 a b c h k

pub field_same-IsStable :
    {A B : Type 0} (f : A → B) (t : Test B) → IsStable t → IsStable (field_same f t)
field_same-IsStable f t (reflexive, transitive) =
    (λ x. reflexive (f x), λ x y z h k. transitive (f x) (f y) (f z) h k)

pub all_same-IsStable : {A : Type 0} (ts : List (Test A)) → All IsStable ts → IsStable (all_same ts)
all_same-IsStable [] h = (λ x. refl, λ x y z h k. refl)
all_same-IsStable (t ∷ ts) ((reflexive, transitive), stable) =
    let (reflexive', transitive') = all_same-IsStable ts stable in
    (
      λ x. rw (reflexive x, reflexive' x) refl,
      λ x y z h k.
          let (a, b) = &&-split (t x y) (all_same ts x y) h in
          let (c, d) = &&-split (t y z) (all_same ts y z) k in
          rw (transitive x y z a c, transitive' x y z b d) refl,
    )

pub list_same-IsStable : {A : Type 0} (t : Test A) → IsStable t → IsStable (list_same t)
list_same-IsStable {A} t (reflexive, transitive) = (each, chain)
  where
    each : (xs : List A) → list_same t xs xs ≡ true
    each [] = refl
    each (x ∷ xs) = rw (reflexive x, each xs) refl

    chain :
        (xs ys zs : List A)
        → list_same t xs ys ≡ true
        → list_same t ys zs ≡ true
        → list_same t xs zs ≡ true
    chain [] [] zs h k = k
    chain [] (y ∷ ys) zs h k = cc
    chain (x ∷ xs) [] zs h k = cc
    chain (x ∷ xs) (y ∷ ys) [] h k = cc
    chain (x ∷ xs) (y ∷ ys) (z ∷ zs) h k =
        let (a, b) = &&-split (t x y) (list_same t xs ys) h in
        let (c, d) = &&-split (t y z) (list_same t ys zs) k in
        rw (transitive x y z a c, chain xs ys zs b d) refl

find-append_old :
    {A : Type 0} (test : A → Bool) (xs ys : List A) (x : A)
    → find test xs ≡ some x
    → find test (xs ++ ys) ≡ some x
find-append_old test [] ys x h = cc
find-append_old test (z ∷ xs) ys x h = elim (Bool-cases (test z)) [
  | inl t ↦ let here : some z ≡ some x = rw t at h in rw t here
  | inr f ↦
      let later : find test xs ≡ some x = rw f at h in rw f (find-append_old test xs ys x later)
]

find-changed :
    {A : Type 0} (test : A → Bool) (change : A → A) (xs : List A) (x : A)
    → ((y : A) → test y ≡ true → test (change y) ≡ true)
    → find test xs ≡ some x
    → find test (update_where test change xs) ≡ some (change x)
find-changed test change [] x keep h = cc
find-changed test change (z ∷ xs) x keep h = elim (Bool-cases (test z)) [
  | inl t ↦
      let here : some z ≡ some x = rw t at h in
      rw (t, keep z t) (ap (λ y. some (change y)) (some-injective _ _ here))
  | inr f ↦
      let later : find test xs ≡ some x = rw f at h in
      rw (f, f) (find-changed test change xs x keep later)
]

find-unchanged :
    {A : Type 0} (test other : A → Bool) (change : A → A) (xs : List A)
    → ((y : A) → test y ≡ true → (other y ≡ false) × (other (change y) ≡ false))
    → find other (update_where test change xs) ≡ find other xs
find-unchanged test other change [] apart = refl
find-unchanged test other change (z ∷ xs) apart = elim (Bool-cases (test z)) [
  | inl t ↦ rw (t, (apart z t).1, (apart z t).0) (find-unchanged test other change xs apart)
  | inr f ↦ rw (f, find-unchanged test other change xs apart)
]

-- Every row of the first table is in the second one, under its key, with the tested fields.
abbrev pub Keeps : {A : Type 0} → (A → ℕ) → Test A → List A → List A → Type 0
Keeps {A} key t xs ys =
    (pk : ℕ) (x : A)
    → find (λ r. key r == pk) xs ≡ some x
    → (y : A) × (find (λ r. key r == pk) ys ≡ some y) × (t x y ≡ true)

module _ {A : Type 0} (key : A → ℕ) (t : Test A) (stable : IsStable t) where
  pub Keeps-refl : (xs : List A) → Keeps key t xs xs
  Keeps-refl xs pk x found = (x, found, stable.0 x)

  pub Keeps-trans : (xs ys zs : List A) → Keeps key t xs ys → Keeps key t ys zs → Keeps key t xs zs
  Keeps-trans xs ys zs h k pk x found =
      let (y, found', same) = h pk x found in
      let (z, found'', same') = k pk y found' in (z, found'', stable.1 x y z same same')

  pub Keeps-append : (xs ys : List A) → Keeps key t xs (xs ++ ys)
  Keeps-append xs ys pk x found = (x, find-append_old (λ r. key r == pk) xs ys x found, stable.0 x)

  -- The rows with a key keep it in a change, and the first of them keeps the tested fields.
  pub Keeps-update_where :
      (k : ℕ) (change : A → A) (xs : List A)
      → ((x : A) → key x ≡ k → key (change x) ≡ k)
      → ((x : A) → find (λ r. key r == k) xs ≡ some x → t x (change x) ≡ true)
      → Keeps key t xs (update_where (λ r. key r == k) change xs)
  Keeps-update_where k change xs keep same pk x found = elim (Bool-cases (k == pk)) [
    | inl here ↦
        let e : k ≡ pk = (==_iff k pk).0 here in
        let at_k : find (λ r. key r == k) xs ≡ some x = rw e found in
        let moved =
          find-changed (λ r. key r == k) change xs x
            (λ y h. (==_iff (key (change y)) k).1 (keep y ((==_iff (key y) k).0 h))) at_k in
        (
          change x,
          ap (λ p. find (λ r. key r == p) (update_where (λ r. key r == k) change xs)) (sym e)
              ∙ moved,
          same x at_k,
        )
    | inr away ↦
        let apart : (y : A)
            → (key y == k) ≡ true
            → ((key y == pk) ≡ false) × ((key (change y) == pk) ≡ false) =
          λ y h.
            let e = (==_iff (key y) k).0 h in
            let e' = keep y e in (ap (λ n. n == pk) e ∙ away, ap (λ n. n == pk) e' ∙ away) in
        (x, find-unchanged (λ r. key r == k) (λ r. key r == pk) change xs apart ∙ found, stable.0 x)
  ]

  -- A row replaces the first one of its key, which has the same tested fields.
  pub Keeps-replace :
      (row previous : A) (xs : List A)
      → find (λ r. key r == key row) xs ≡ some previous
      → t previous row ≡ true
      → Keeps key t xs (update_where (λ r. key r == key row) (λ _. row) xs)
  Keeps-replace row previous xs found same =
      Keeps-update_where (key row) (λ _. row) xs (λ x e. refl)
        λ x found'.
          let e : previous ≡ x = some-injective _ _ (sym found ∙ found') in
          ap (λ y. t y row) (sym e) ∙ same
