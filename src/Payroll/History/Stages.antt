-- ===== src/Payroll/History/Stages.antt =====
-- The stages of the lifecycle between two statuses, as their codes.
use payroll_management_syste.Prelude.{
  ℕ, zero, suc, ◌+◌, ◌≤◌, ◌≡◌, sym, ap, subst, ◌∙◌, inl, inr, true, false, List, [], ◌∷◌, ◌++◌,
  append-nil, append_assoc, arith, ltb, leb-cases, if◌then◌else◌, refl,
}

-- The stages after `from`, up to `n`.
unfoldable pub stages : ℕ → ℕ → List ℕ
stages from zero = []
stages from (suc n) = if ltb from (suc n) then stages from n ++ suc n ∷ [] else []

pub stages-same : (n : ℕ) → stages n n ≡ []
unfolding stages
stages-same zero = refl
stages-same (suc n) = let f : ltb (suc n) (suc n) ≡ false = ground arith in rw f refl

pub stages-step : (from m n : ℕ) → m ≡ n + 1 → from ≤ n → stages from m ≡ stages from n ++ m ∷ []
unfolding stages
stages-step from m n e below =
    let after : m ≡ suc n = omega (arith, e) in
    let t : ltb from (suc n) ≡ true = ground arith in
    subst (λ k. stages from k ≡ stages from n ++ k ∷ []) (sym after) (rw t refl)

pub stages-join : (from n m : ℕ) → from ≤ n → n ≤ m → stages from n ++ stages n m ≡ stages from m
unfolding stages
stages-join from n zero below far =
    let at : n ≡ 0 = omega arith in
    subst (λ k. stages from k ++ stages k 0 ≡ stages from 0) (sym at) refl
stages-join from n (suc m) below far = elim (leb-cases (suc m) n) [
  | inl t ↦
      let at : n ≡ suc m = omega arith in
      subst (λ k. stages from n ++ stages n k ≡ stages from k) at
        (ap (λ xs. stages from n ++ xs) (stages-same n) ∙ append-nil (stages from n))
  | inr f ↦
      let less : n ≤ m = omega (arith, f) in
      ap (λ xs. stages from n ++ xs) (stages-step n (suc m) m (omega arith) less)
      ∙ sym (append_assoc (stages from n) (stages n m) (suc m ∷ []))
      ∙ ap (λ xs. xs ++ suc m ∷ []) (stages-join from n m below less)
      ∙ sym (stages-step from (suc m) m (omega arith) (omega (arith, below, less)))
]
