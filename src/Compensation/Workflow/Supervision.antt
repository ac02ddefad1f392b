-- ===== src/Compensation/Workflow/Supervision.antt =====
-- Every recommendation that was approved or applied has the approval of somebody who did not
-- create it.
use payroll_management_syste.Prelude.{
  find-update_where_other, find-update_where, Elem-append_right, Elem-append_left, ℕ, String, ◌≡◌,
  refl, sym, ap, subst, ◌∙◌, inl, inr, Bool, true, false, ◌&&◌, some, some-injective, List, [], ◌∷◌,
  ◌++◌, ◌==◌, ==_iff, Bool-cases, update_where, Elem, find_sound,
}
use payroll_management_syste.Outcome.{Result, atomic-cases, Ensures-elim}
use payroll_management_syste.Organizations.{User, OrganizationMembership}
use payroll_management_syste.Compensation.Models.{
  CompensationPolicy, Salary, CompensationRecommendation, CompensationApproval, CompensationStore,
  ApprovalAction, RecommendationStatus, is_pending, is_approved, is_approval,
}
use payroll_management_syste.Compensation.Models.RecommendationStatus.{
  draft, pending_approval, rejected,
}
use payroll_management_syste.Compensation.Workflow.{
  recommendation_by_key, is_creator, record_approval, approve_locked, approve_recommendation,
  approval_of, has_approval, record_application, apply_locked, apply_approved_recommendation,
  with_status, committed,
}
use payroll_management_syste.Compensation.Workflow.Control.{
  IsApproved, IsApplied, approve_locked-Ensures, apply_locked-Ensures,
}

-- The recommendation has an approval, and its actor is not its creator.
abbrev pub HasReview : CompensationRecommendation → List CompensationApproval → Type 0
HasReview r approvals =
    (a : CompensationApproval) × Elem a approvals
    × (a.recommendation ≡ r.pk)
    × (is_approval a.action ≡ true)
    × (is_creator r.created_by a.actor ≡ false)

abbrev pub IsSupervised : CompensationStore → Type 0
IsSupervised s =
    (pk : ℕ) (r : CompensationRecommendation)
    → recommendation_by_key pk s.recommendations ≡ some r
    → is_pending r.status ≡ false
    → HasReview r s.approvals

later_review :
    (r : CompensationRecommendation) (old new : List CompensationApproval)
    → HasReview r old
    → HasReview r (old ++ new)
later_review r old new (a, m, of_r, action, other) =
    (a, Elem-append_left a old new m, of_r, action, other)

-- The row with the key is changed in its status and result alone.
abbrev KeepsReview : (CompensationRecommendation → CompensationRecommendation) → Type 0
KeepsReview change =
    (x : CompensationRecommendation)
    → ((change x).pk ≡ x.pk) × ((change x).created_by ≡ x.created_by)

updated-IsSupervised :
    (s : CompensationStore) (approvals : List CompensationApproval) (r : CompensationRecommendation)
    (change : CompensationRecommendation → CompensationRecommendation)
    → KeepsReview change
    → IsSupervised s
    → recommendation_by_key r.pk s.recommendations ≡ some r
    → HasReview r (s.approvals ++ approvals)
    → (pk : ℕ) (x : CompensationRecommendation)
    → recommendation_by_key pk (update_where (λ y. y.pk == r.pk) change s.recommendations) ≡ some x
    → is_pending x.status ≡ false
    → HasReview x (s.approvals ++ approvals)
updated-IsSupervised s approvals r change keep h found review pk x e later =
    elim (Bool-cases (r.pk == pk)) [
      | inl here ↦
          let same = (==_iff r.pk pk).0 here in
          let now =
            find-update_where (λ y. y.pk == r.pk) change s.recommendations r
              (λ y. ap (λ k. k == r.pk) (keep y).0) found in
          let changed : change r ≡ x = some-injective _ _ (
            sym now
            ∙ ap
                (λ k.
                  recommendation_by_key k
                    (update_where (λ y. y.pk == r.pk) change s.recommendations))
                same
            ∙ e) in
          let (a, m, of_r, action, other) = review in
          (
            a,
            m,
            of_r ∙ sym (keep r).0 ∙ ap (λ (y : CompensationRecommendation). y.pk) changed,
            action,
            ap (λ c. is_creator c a.actor)
                  (sym (ap (λ (y : CompensationRecommendation). y.created_by) changed) ∙ (keep r).1)
                ∙ other,
          )
      | inr away ↦
          let before : recommendation_by_key pk s.recommendations ≡ some x =
            sym (
              find-update_where_other (λ y. y.pk == r.pk) (λ y. y.pk == pk) change s.recommendations
                (λ y. ap (λ k. k == pk) (keep y).0)
                (λ y t. ap (λ k. k == pk) ((==_iff y.pk r.pk).0 t) ∙ away))
            ∙ e in
          later_review x s.approvals approvals (h pk x before later)
    ]

key_of :
    (pk : ℕ) (rs : List CompensationRecommendation) (r : CompensationRecommendation)
    → recommendation_by_key pk rs ≡ some r
    → recommendation_by_key r.pk rs ≡ some r
key_of pk rs r found =
    ap (λ k. recommendation_by_key k rs)
      ((==_iff r.pk pk).0 (find_sound (λ x. x.pk == pk) rs r found))
    ∙ found

record_approval-IsSupervised :
    (s : CompensationStore) (r : CompensationRecommendation) (actor : User) (explanation : String)
    → recommendation_by_key r.pk s.recommendations ≡ some r
    → is_creator r.created_by actor.pk ≡ false
    → IsSupervised s
    → IsSupervised (record_approval r actor explanation s)
unfolding record_approval
record_approval-IsSupervised s r actor explanation found other h =
    let a = approval_of r ApprovalAction.approved actor explanation in
    updated-IsSupervised s (a ∷ []) r (with_status RecommendationStatus.approved)
      (λ x. (refl, refl)) h found
      (a, Elem-append_right a s.approvals (a ∷ []) (inl refl), refl, refl, other)

approved_not_pending :
    (status : RecommendationStatus) → is_approved status ≡ true → is_pending status ≡ false
approved_not_pending RecommendationStatus.approved e = refl
approved_not_pending draft e = cc
approved_not_pending pending_approval e = cc
approved_not_pending rejected e = cc
approved_not_pending RecommendationStatus.applied e = cc

record_application-IsSupervised :
    (s : CompensationStore) (r : CompensationRecommendation) (p : CompensationPolicy)
    (salaries : List Salary) (actor : User) (explanation : String)
    → recommendation_by_key r.pk s.recommendations ≡ some r
    → is_approved r.status ≡ true
    → IsSupervised s
    → IsSupervised (record_application r p salaries actor explanation s)
unfolding record_application
record_application-IsSupervised s r p salaries actor explanation found agreed h =
    let a = approval_of r ApprovalAction.applied actor explanation in
    updated-IsSupervised s (a ∷ []) r
      (λ x. record x {
        status = RecommendationStatus.applied;
        resulting_salary = some s.next_salary;
      })
      (λ x. (refl, refl)) h found
      (later_review r s.approvals (a ∷ []) (h r.pk r found (approved_not_pending r.status agreed)))

-- Approving, whether the call returns or raises, keeps it true that every recommendation that is no
-- longer pending has an approval of somebody who did not create it.
pub approve_recommendation-IsSupervised :
    (memberships : List OrganizationMembership) (pk : ℕ) (actor : User) (explanation : String)
    (s s' : CompensationStore) (result : Result CompensationRecommendation)
    → IsSupervised s
    → approve_recommendation memberships pk actor explanation s ≡ (result, s')
    → IsSupervised s'
unfolding approve_recommendation
approve_recommendation-IsSupervised memberships pk actor explanation s s' result h e =
    let m = approve_locked memberships pk actor explanation s in
    elim (atomic-cases s s' result m e) [
      | inl same ↦ subst IsSupervised (sym same) h
      | inr (r', returned) ↦
          let (r, p, found, _, (_, _, other, _, _, _), _, written) =
            Ensures-elim (IsApproved memberships pk actor explanation s) m (r', s')
              (approve_locked-Ensures memberships pk actor explanation s) returned in
          subst IsSupervised (sym written) (
            record_approval-IsSupervised s r actor explanation (key_of pk s.recommendations r found)
              other h)
    ]

both : (a b : Bool) → (a && b) ≡ true → a ≡ true
both true b e = refl
both false b e = cc

-- Applying, whether the call returns or raises, keeps it true that every recommendation that is no
-- longer pending has an approval of somebody who did not create it.
apply_approved_recommendation-IsSupervised :
    (memberships : List OrganizationMembership) (pk : ℕ) (actor : User) (effective_from : ℕ)
    (explanation : String) (s s' : CompensationStore) (result : Result Salary)
    → IsSupervised s
    → apply_approved_recommendation memberships pk actor effective_from explanation s ≡ (result, s')
    → IsSupervised s'
unfolding apply_approved_recommendation
apply_approved_recommendation-IsSupervised memberships pk actor effective_from explanation s s'
      result h e =
    let m = apply_locked memberships pk actor effective_from explanation s in
    elim (atomic-cases s s' result m e) [
      | inl same ↦ subst IsSupervised (sym same) h
      | inr (salary, returned) ↦
          let (r, current, p, closed, found, _, agreed, _, _, _, _, _, _, written) =
            Ensures-elim (IsApplied memberships pk actor effective_from explanation s) m
              (salary, s') (apply_locked-Ensures memberships pk actor effective_from explanation s)
              returned in
          subst IsSupervised (sym written) (
            record_application-IsSupervised s r (committed r p) (closed ++ salary ∷ []) actor
              explanation (key_of pk s.recommendations r found)
              (both (is_approved r.status) (has_approval r.pk s.approvals) agreed) h)
    ]
