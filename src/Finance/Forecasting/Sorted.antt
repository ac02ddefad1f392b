-- ===== src/Finance/Forecasting/Sorted.antt =====
-- The observations of a prediction in the order of their dates.
use payroll_management_syste.Prelude.{
  ◌⊎◌, Elem, refl, ◌≡◌, map, All-map, ◌∷◌, [], All, List, ℕ, ◌≤◌, inl, inr, arith, leb, Bool-cases,
}
use payroll_management_syste.Finance.Forecasting.{
  last_of, sort_observations, insert_observation, Observation,
}

abbrev pub IsSorted : List Observation → Type 0
IsSorted [] = Unit
IsSorted (o ∷ os) = All (λ (p : Observation). o.0 ≤ p.0) os × IsSorted os

insert_observation-All :
    (P : Observation → Type 0) (o : Observation) (os : List Observation)
    → P o
    → All P os
    → All P (insert_observation o os)
unfolding insert_observation
insert_observation-All P o [] p ps = (p, tt)
insert_observation-All P o (x ∷ xs) p (q, qs) = elim (Bool-cases (leb o.0 x.0)) [
  | inl t ↦ rw t (p, (q, qs))
  | inr f ↦ rw f (q, insert_observation-All P o xs p qs)
]

insert_observation-IsSorted :
    (o : Observation) (os : List Observation) → IsSorted os → IsSorted (insert_observation o os)
unfolding insert_observation
insert_observation-IsSorted o [] h = (tt, tt)
insert_observation-IsSorted o (x ∷ xs) (h, hs) = elim (Bool-cases (leb o.0 x.0)) [
  | inl t ↦
      let first : o.0 ≤ x.0 = ground arith in
      rw t ((first, All-map (λ p. x.0 ≤ p.0) (λ p. o.0 ≤ p.0) xs (λ p le. omega arith) h), (h, hs))
  | inr f ↦
      let first : x.0 ≤ o.0 = ground arith in
      rw f
        (insert_observation-All (λ p. x.0 ≤ p.0) o xs first h, insert_observation-IsSorted o xs hs)
]

pub sort_observations-IsSorted : (os : List Observation) → IsSorted (sort_observations os)
unfolding sort_observations
sort_observations-IsSorted [] = tt
sort_observations-IsSorted (o ∷ os) =
    insert_observation-IsSorted o (sort_observations os) (sort_observations-IsSorted os)

inserted-All :
    (P : Observation → Type 0) (o : Observation) (os : List Observation)
    → All P (insert_observation o os)
    → P o × All P os
unfolding insert_observation
inserted-All P o [] (p, ps) = (p, tt)
inserted-All P o (x ∷ xs) h = elim (Bool-cases (leb o.0 x.0)) [
  | inl t ↦ rw t at h
  | inr f ↦
      let both : P x × All P (insert_observation o xs) = rw f at h in
      let (p, ps) = inserted-All P o xs both.1 in (p, (both.0, ps))
]

pub sorted-All :
    (P : Observation → Type 0) (os : List Observation) → All P (sort_observations os) → All P os
unfolding sort_observations
sorted-All P [] h = tt
sorted-All P (o ∷ os) h =
    let (p, ps) = inserted-All P o (sort_observations os) h in (p, sorted-All P os ps)

pub last_of-le :
    (o : Observation) (os : List Observation)
    → IsSorted (o ∷ os)
    → All (λ (p : Observation). p.0 ≤ (last_of o os).0) (o ∷ os)
last_of-le o [] h = (omega arith, tt)
last_of-le o (x ∷ xs) ((first, _), hs) =
    let rest = last_of-le x xs hs in (omega (arith, rest.0), rest)

abbrev pub dates_of : List Observation → List ℕ
dates_of = map (λ (o : Observation). o.0)

inserted-Elem :
    (o : Observation) (os : List Observation) (d : ℕ)
    → Elem d (dates_of (insert_observation o os))
    → Elem d (dates_of (o ∷ os))
unfolding insert_observation
inserted-Elem o [] d m = m
inserted-Elem o (x ∷ xs) d m = elim (Bool-cases (leb o.0 x.0)) [
  | inl t ↦ rw t at m
  | inr f ↦
      let either : (d ≡ x.0) ⊎ Elem d (dates_of (insert_observation o xs)) = rw f at m in
      elim either [ inl e ↦ inr (inl e) | inr n ↦ behind (inserted-Elem o xs d n) ]
]
  where
    behind : Elem d (dates_of (o ∷ xs)) → Elem d (dates_of (o ∷ x ∷ xs))
    behind (inl e) = inl e
    behind (inr k) = inr (inr k)

pub sorted-Elem :
    (os : List Observation) (d : ℕ)
    → Elem d (dates_of (sort_observations os))
    → Elem d (dates_of os)
unfolding sort_observations
sorted-Elem [] d m = m
sorted-Elem (o ∷ os) d m = elim (inserted-Elem o (sort_observations os) d m) [
  | inl e ↦ inl e
  | inr n ↦ inr (sorted-Elem os d n)
]

pub last_of-Elem :
    (o : Observation) (os : List Observation) → Elem (last_of o os).0 (dates_of (o ∷ os))
last_of-Elem o [] = inl refl
last_of-Elem o (x ∷ xs) = inr (last_of-Elem x xs)
