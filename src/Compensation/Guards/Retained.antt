-- ===== src/Compensation/Guards/Retained.antt =====
-- What each save and each call of the workflow keeps of the tables.
use payroll_management_syste.Prelude.{
  ap, inr, find_sound, sym, ==_iff, subst, inl, some, ◌+◌, ◌++◌, Elem-append_left, ℕ, String, ◌≡◌,
  refl, ◌∙◌, Option, List, [], ◌∷◌, ◌==◌, update_where, Elem,
}
use payroll_management_syste.Prelude.Compared.{
  Keeps-replace, all_same, Keeps, Keeps-refl, Keeps-trans, Keeps-append, Keeps-update_where,
}
use payroll_management_syste.Outcome.{
  atomic-cases, Ensures-elim, validation_error, raise_unless, does_not_exist, or_raise, Result,
  Ensures, Ensures-bind, or_raise-ok, raise_unless-ok,
}
use payroll_management_syste.Organizations.{User, OrganizationMembership}
use payroll_management_syste.Compensation.Models.{
  CompensationPolicy, ScoringRule, Salary, CompensationRecommendation, CompensationApproval,
  CompensationStore, RecommendationStatus,
}
use payroll_management_syste.Compensation.Workflow.{
  committed, record_application, approve_locked, apply_locked, recommendation_by_key,
  approve_recommendation, apply_approved_recommendation, record_approval, with_status,
  policy_by_key,
}
use payroll_management_syste.Compensation.Guards.{
  policy_terms, rule_terms, result_terms, Saving, new, existing, save_policy, save_rule,
  save_recommendation, save_approval, check_policy, check_rule, clean_recommendation, RetainedTable,
  delete_row, rule_by_key,
}
use payroll_management_syste.Compensation.Guards.Terms.{
  policy_terms-IsStable, rule_terms-IsStable, result_terms-IsStable,
}
use payroll_management_syste.Compensation.Workflow.Control.{
  approve_locked-Ensures, apply_locked-Ensures, IsApproved, IsApplied,
}

-- The policies and the rules keep their terms, the recommendations their results, and every approval
-- is kept.
abbrev pub AreRetained : CompensationStore → CompensationStore → Type 0
AreRetained s t =
    Keeps (λ p. p.pk) (all_same policy_terms) s.policies t.policies
    × Keeps (λ r. r.pk) (all_same rule_terms) s.rules t.rules
    × Keeps (λ r. r.pk) (all_same result_terms) s.recommendations t.recommendations
    × ((a : CompensationApproval) → Elem a s.approvals → Elem a t.approvals)

pub AreRetained-refl : (s : CompensationStore) → AreRetained s s
AreRetained-refl s = (
  Keeps-refl (λ p. p.pk) (all_same policy_terms) policy_terms-IsStable s.policies,
  Keeps-refl (λ r. r.pk) (all_same rule_terms) rule_terms-IsStable s.rules,
  Keeps-refl (λ r. r.pk) (all_same result_terms) result_terms-IsStable s.recommendations,
  λ a m. m,
)

pub AreRetained-trans :
    (s a b : CompensationStore) → AreRetained s a → AreRetained a b → AreRetained s b
AreRetained-trans s a b (p, r, q, m) (p', r', q', m') = (
  Keeps-trans (λ p. p.pk) (all_same policy_terms) policy_terms-IsStable s.policies a.policies
      b.policies p p',
  Keeps-trans (λ r. r.pk) (all_same rule_terms) rule_terms-IsStable s.rules a.rules b.rules r r',
  Keeps-trans (λ r. r.pk) (all_same result_terms) result_terms-IsStable s.recommendations
      a.recommendations b.recommendations q q',
  λ x old. m' x (m x old),
)

pub save_policy-AreRetained :
    (saving : Saving) (p : CompensationPolicy) (s : CompensationStore)
    → Ensures (AreRetained s) (save_policy saving p s)
unfolding save_policy
save_policy-AreRetained new p s =
    let (_, r, q, m) = AreRetained-refl s in
    Ensures-bind (AreRetained s) (check_policy s.policies p) _ λ _ _. (
      Keeps-append (λ p. p.pk) (all_same policy_terms) policy_terms-IsStable s.policies (p ∷ []),
      r,
      q,
      m,
    )
save_policy-AreRetained existing p s =
    let (_, r, q, m) = AreRetained-refl s in
    Ensures-bind (AreRetained s) (or_raise (policy_by_key p.pk s.policies) does_not_exist) _
      λ previous found.
        Ensures-bind (AreRetained s)
          (raise_unless (all_same policy_terms previous p)
            (validation_error "published policy terms are immutable"))
          _
          λ _ same. Ensures-bind (AreRetained s) (check_policy s.policies p) _ λ _ _. (
            Keeps-replace (λ p. p.pk) (all_same policy_terms) policy_terms-IsStable p previous
                s.policies (or_raise-ok _ _ found) (raise_unless-ok _ _ same),
            r,
            q,
            m,
          )

pub save_rule-AreRetained :
    (saving : Saving) (r : ScoringRule) (s : CompensationStore)
    → Ensures (AreRetained s) (save_rule saving r s)
unfolding save_rule
save_rule-AreRetained new r s =
    let (p, _, q, m) = AreRetained-refl s in
    Ensures-bind (AreRetained s) (check_rule s.rules r) _ λ _ _.
      (p, Keeps-append (λ r. r.pk) (all_same rule_terms) rule_terms-IsStable s.rules (r ∷ []), q, m)
save_rule-AreRetained existing r s =
    let (p, _, q, m) = AreRetained-refl s in
    Ensures-bind (AreRetained s) (or_raise (rule_by_key r.pk s.rules) does_not_exist) _
      λ previous found.
        Ensures-bind (AreRetained s)
          (raise_unless (all_same rule_terms previous r)
            (validation_error "published scoring rules are immutable"))
          _
          λ _ same. Ensures-bind (AreRetained s) (check_rule s.rules r) _ λ _ _. (
            p,
            Keeps-replace (λ r. r.pk) (all_same rule_terms) rule_terms-IsStable r previous s.rules
                (or_raise-ok _ _ found) (raise_unless-ok _ _ same),
            q,
            m,
          )

pub save_recommendation-AreRetained :
    (employee_owner : ℕ → Option ℕ) (saving : Saving) (r : CompensationRecommendation)
    (s : CompensationStore)
    → Ensures (AreRetained s) (save_recommendation employee_owner saving r s)
unfolding save_recommendation
save_recommendation-AreRetained employee_owner new r s =
    let (p, q, _, m) = AreRetained-refl s in
    Ensures-bind (AreRetained s) (clean_recommendation employee_owner s r) _ λ _ _. (
      p,
      q,
      Keeps-append (λ r. r.pk) (all_same result_terms) result_terms-IsStable s.recommendations
          (r ∷ []),
      m,
    )
save_recommendation-AreRetained employee_owner existing r s =
    let (p, q, _, m) = AreRetained-refl s in
    Ensures-bind (AreRetained s)
      (or_raise (recommendation_by_key r.pk s.recommendations) does_not_exist) _
      λ previous found.
        Ensures-bind (AreRetained s)
          (raise_unless (all_same result_terms previous r)
            (validation_error "recommendation scoring results are immutable"))
          _
          λ _ same. Ensures-bind (AreRetained s) (clean_recommendation employee_owner s r) _ λ _ _.
            (
              p,
              q,
              Keeps-replace (λ r. r.pk) (all_same result_terms) result_terms-IsStable r previous
                  s.recommendations (or_raise-ok _ _ found) (raise_unless-ok _ _ same),
              m,
            )

pub save_approval-AreRetained :
    (saving : Saving) (x : CompensationApproval) (s : CompensationStore)
    → Ensures (AreRetained s) (save_approval saving x s)
unfolding save_approval
save_approval-AreRetained existing x s = tt
save_approval-AreRetained new x s =
    let (p, q, r, _) = AreRetained-refl s in
    Ensures-bind (AreRetained s)
      (or_raise (recommendation_by_key x.recommendation s.recommendations)
        (validation_error "the recommendation does not exist"))
      _
      λ of_it _.
        Ensures-bind (AreRetained s)
          (raise_unless (x.organization == of_it.organization)
            (validation_error "recommendation must belong to the same organization"))
          _ λ _ _. (p, q, r, λ a m. Elem-append_left a s.approvals (x ∷ []) m)

pub delete_row-AreRetained :
    (table : RetainedTable) (s : CompensationStore) → Ensures (AreRetained s) (delete_row table s)
unfolding delete_row
delete_row-AreRetained RetainedTable.policies s = tt
delete_row-AreRetained RetainedTable.rules s = tt
delete_row-AreRetained RetainedTable.recommendations s = tt
delete_row-AreRetained RetainedTable.approvals s = tt

-- An approval or an application changes the row of the recommendation in its status and its salary.
status_changed :
    (k : ℕ) (change : CompensationRecommendation → CompensationRecommendation)
    (rs : List CompensationRecommendation)
    → ((r : CompensationRecommendation) → (change r).pk ≡ r.pk)
    → ((r : CompensationRecommendation)
        → all_same result_terms r (change r) ≡ all_same result_terms r r)
    → Keeps (λ r. r.pk) (all_same result_terms) rs (update_where (λ r. r.pk == k) change rs)
status_changed k change rs keep same =
    Keeps-update_where (λ r. r.pk) (all_same result_terms) result_terms-IsStable k change rs
      (λ x e. keep x ∙ e) λ x _. same x ∙ result_terms-IsStable.0 x

record_approval-AreRetained :
    (r : CompensationRecommendation) (actor : User) (explanation : String) (s : CompensationStore)
    → AreRetained s (record_approval r actor explanation s)
unfolding record_approval
record_approval-AreRetained r actor explanation s =
    let (p, q, _, _) = AreRetained-refl s in
    (
      p,
      q,
      status_changed r.pk (with_status RecommendationStatus.approved) s.recommendations (λ _. refl)
          (λ _. refl),
      λ a m. Elem-append_left a s.approvals _ m,
    )

record_application-AreRetained :
    (r : CompensationRecommendation) (p : CompensationPolicy) (salaries : List Salary)
    (actor : User) (explanation : String) (s : CompensationStore)
    → policy_by_key r.policy s.policies ≡ some p
    → AreRetained s (record_application r (committed r p) salaries actor explanation s)
unfolding record_application
record_application-AreRetained r p salaries actor explanation s found =
    let (_, q, _, _) = AreRetained-refl s in
    let of_key : p.pk ≡ r.policy =
      (==_iff p.pk r.policy).0 (find_sound (λ x. x.pk == r.policy) s.policies p found) in
    (
      Keeps-replace (λ p. p.pk) (all_same policy_terms) policy_terms-IsStable (committed r p) p
          s.policies (ap (λ k. policy_by_key k s.policies) of_key ∙ found)
          (policy_terms-IsStable.0 p),
      q,
      status_changed r.pk
          (λ x. record x {
            status = RecommendationStatus.applied;
            resulting_salary = some s.next_salary;
          })
          s.recommendations (λ _. refl) (λ _. refl),
      λ a m. Elem-append_left a s.approvals _ m,
    )

pub proposed-AreRetained :
    (s s' : CompensationStore) (r : CompensationRecommendation)
    → s' ≡ record s {
      recommendations = s.recommendations ++ r ∷ [];
      next_recommendation = s.next_recommendation + 1;
    }
    → AreRetained s s'
proposed-AreRetained s s' r written =
    let (p, q, _, m) = AreRetained-refl s in
    subst (AreRetained s) (sym written) (
      p,
      q,
      Keeps-append (λ r. r.pk) (all_same result_terms) result_terms-IsStable s.recommendations
          (r ∷ []),
      m,
    )

pub approved-AreRetained :
    (memberships : List OrganizationMembership) (pk : ℕ) (actor : User) (explanation : String)
    (s s' : CompensationStore) (result : Result CompensationRecommendation)
    → approve_recommendation memberships pk actor explanation s ≡ (result, s')
    → AreRetained s s'
unfolding approve_recommendation
approved-AreRetained memberships pk actor explanation s s' result e =
    let m = approve_locked memberships pk actor explanation s in
    elim (atomic-cases s s' result m e) [
      | inl same ↦ subst (AreRetained s) (sym same) (AreRetained-refl s)
      | inr (r', returned) ↦
          let (r, p, _, _, _, _, written) =
            Ensures-elim (IsApproved memberships pk actor explanation s) m (r', s')
              (approve_locked-Ensures memberships pk actor explanation s) returned in
          subst (AreRetained s) (sym written) (record_approval-AreRetained r actor explanation s)
    ]

pub applied-AreRetained :
    (memberships : List OrganizationMembership) (pk : ℕ) (actor : User) (effective_from : ℕ)
    (explanation : String) (s s' : CompensationStore) (result : Result Salary)
    → apply_approved_recommendation memberships pk actor effective_from explanation s ≡ (result, s')
    → AreRetained s s'
unfolding apply_approved_recommendation
applied-AreRetained memberships pk actor effective_from explanation s s' result e =
    let m = apply_locked memberships pk actor effective_from explanation s in
    elim (atomic-cases s s' result m e) [
      | inl same ↦ subst (AreRetained s) (sym same) (AreRetained-refl s)
      | inr (salary, returned) ↦
          let (r, _, p, closed, _, _, _, _, _, _, kept, _, _, written) =
            Ensures-elim (IsApplied memberships pk actor effective_from explanation s) m
              (salary, s') (apply_locked-Ensures memberships pk actor effective_from explanation s)
              returned in
          subst (AreRetained s) (sym written)
            (record_application-AreRetained r p (closed ++ salary ∷ []) actor explanation s kept)
    ]
