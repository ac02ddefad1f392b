-- ===== src/Taxation/Imports/Activation.antt =====
-- An activation retires the rule that it takes the place of; what all histories keep.
use payroll_management_syste.Prelude.{
  Elem-update_where, ℕ, ◌≡◌, refl, sym, ap, subst, ◌∙◌, ◌⊎◌, inl, inr, Bool, true, false, ◌&&◌,
  some, List, [], ◌==◌, ==_iff, update_where, Elem,
}
use payroll_management_syste.Outcome.{
  ok, validation_error, raise_unless, raise_unless-ok, Ensures-bind, Ensures-elim,
}
use payroll_management_syste.Taxation.Models.{
  RuleStatus, TaxRuleVersion, has_status, draft, validated, approved, active, retired, rejected,
}
use payroll_management_syste.Taxation.Imports.{
  import_tax_table, approve_rule, with_approval, is_empty, activate_rule, is_replaced_by, retire,
  with_activation,
}
use payroll_management_syste.Taxation.Imports.Review.{
  IsStored, RuleHistory, start, imported, reviewed, activated, is_reviewed, IsReviewed,
  IsUnambiguous, IsImport, import_tax_table-Ensures, imported-IsReviewed, imported-IsUnambiguous,
  approve_rule-IsReviewed,
}

has_reviewed : (s : RuleStatus) → has_status s approved ≡ true → is_reviewed s ≡ true
has_reviewed approved e = refl
has_reviewed active e = refl
has_reviewed retired e = refl
has_reviewed draft e = cc
has_reviewed validated e = cc
has_reviewed rejected e = cc

active_reviewed : (s : RuleStatus) → has_status s active ≡ true → is_reviewed s ≡ true
active_reviewed approved e = refl
active_reviewed active e = refl
active_reviewed retired e = refl
active_reviewed draft e = cc
active_reviewed validated e = cc
active_reviewed rejected e = cc

-- The row is the activated rule, but for its status.
abbrev IsActivated : TaxRuleVersion → List TaxRuleVersion → TaxRuleVersion → Type 0
IsActivated rule a y =
    Elem rule a
    × (y.pk ≡ rule.pk)
    × (y.jurisdiction ≡ rule.jurisdiction)
    × (y.effective_from ≡ rule.effective_from)
    × (y.validation_errors ≡ rule.validation_errors)
    × (y.approved_by ≡ rule.approved_by)

-- Where a row of the table after an activation comes from: it is the activated rule, a retired one,
-- or a row that the rule did not replace.
abbrev Origin : TaxRuleVersion → List TaxRuleVersion → TaxRuleVersion → Type 0
Origin rule a y =
    IsActivated rule a y
    ⊎ (((x : TaxRuleVersion) × Elem x a × (is_replaced_by rule x ≡ true) × (y ≡ retire x))
        ⊎ (Elem y a × (is_replaced_by rule y ≡ false)))

taken :
    (rule : TaxRuleVersion) (now : ℕ) (a : List TaxRuleVersion) (x z y : TaxRuleVersion)
    → IsStored rule a
    → Elem x a
    → (x.pk == rule.pk) ≡ true
    → (z ≡ retire x) ⊎ (z ≡ x)
    → y ≡ with_activation now z
    → Origin rule a y
taken rule now a x z y stored m t way changed =
    let same = stored x m t in
    let here = subst (λ r. Elem r a) same m in
    let z_same : (z ≡ retire rule) ⊎ (z ≡ rule) = subst (λ r. (z ≡ retire r) ⊎ (z ≡ r)) same way in
    inl (elim z_same [
      | inl e ↦
          subst (IsActivated rule a) (sym (changed ∙ ap (with_activation now) e))
            (here, refl, refl, refl, refl, refl)
      | inr e ↦
          subst (IsActivated rule a) (sym (changed ∙ ap (with_activation now) e))
            (here, refl, refl, refl, refl, refl)
    ])

activated-Origin :
    (rule : TaxRuleVersion) (now : ℕ) (a : List TaxRuleVersion) (y : TaxRuleVersion)
    → IsStored rule a
    → Elem y (
        update_where
          (λ r. r.pk == rule.pk)
          (with_activation now)
          (update_where (is_replaced_by rule) retire a))
    → Origin rule a y
activated-Origin rule now a y stored m =
    let (z, n, way) =
      Elem-update_where (λ r. r.pk == rule.pk) (with_activation now)
        (update_where (is_replaced_by rule) retire a) y m in
    let (x, old, how) = Elem-update_where (is_replaced_by rule) retire a z n in
    elim way [
      | inl (t, changed) ↦ elim how [
        | inl (r, e) ↦
            taken rule now a x z y stored old
              (ap (λ (w : TaxRuleVersion). w.pk == rule.pk) (sym e) ∙ t) (inl e) changed
        | inr (f, e) ↦
            taken rule now a x z y stored old
              (ap (λ (w : TaxRuleVersion). w.pk == rule.pk) (sym e) ∙ t) (inr e) changed
      ]
      | inr (_, same) ↦ elim how [
        | inl (r, e) ↦ inr (inl (x, old, r, same ∙ e))
        | inr (f, e) ↦ inr (
            inr
              (subst (λ w. Elem w a) (sym (same ∙ e)) old, ap (is_replaced_by rule) (same ∙ e) ∙ f))
      ]
    ]

both_true : (a b c : Bool) → (a && b && c) ≡ true → b ≡ true
both_true true true c e = refl
both_true true false c e = cc
both_true false b c e = cc

Origin-IsReviewed :
    (rule : TaxRuleVersion) (a : List TaxRuleVersion) (y : TaxRuleVersion)
    → has_status rule.status approved ≡ true
    → IsReviewed a
    → Origin rule a y
    → is_reviewed y.status ≡ true
    → (y.validation_errors ≡ []) × ((approver : ℕ) × (y.approved_by ≡ some approver))
Origin-IsReviewed rule a y passed h (inl (m, _, _, _, errors, approver)) s =
    let (clean, (who, named)) = h rule m (has_reviewed rule.status passed) in
    (errors ∙ clean, (who, approver ∙ named))
Origin-IsReviewed rule a y passed h (inr (inl (x, m, r, e))) s =
    let on =
      both_true (x.jurisdiction == rule.jurisdiction) (has_status x.status active)
        (x.effective_from == rule.effective_from) r in
    let (clean, (who, named)) = h x m (active_reviewed x.status on) in
    (
      ap (λ (z : TaxRuleVersion). z.validation_errors) e ∙ clean,
      (who, ap (λ (z : TaxRuleVersion). z.approved_by) e ∙ named),
    )
Origin-IsReviewed rule a y passed h (inr (inr (m, f))) s = h y m s

clash :
    (rule x : TaxRuleVersion) (j d : ℕ)
    → is_replaced_by rule x ≡ false
    → has_status x.status active ≡ true
    → (x.jurisdiction == j) ≡ true
    → (x.effective_from == d) ≡ true
    → j ≡ rule.jurisdiction
    → d ≡ rule.effective_from
    → ⊥
clash rule x j d f on same_j same_d own_j own_d =
    let yes_j : (x.jurisdiction == rule.jurisdiction) ≡ true =
      ap (λ k. x.jurisdiction == k) (sym own_j) ∙ same_j in
    let yes_d : (x.effective_from == rule.effective_from) ≡ true =
      ap (λ k. x.effective_from == k) (sym own_d) ∙ same_d in
    let replaced : is_replaced_by rule x ≡ true = rw (yes_j, on, yes_d) refl in cc

flip_eq : (a b : ℕ) → (a == b) ≡ true → (b == a) ≡ true
flip_eq a b e = (==_iff b a).1 (sym ((==_iff a b).0 e))

Origin-IsUnambiguous :
    (rule : TaxRuleVersion) (a : List TaxRuleVersion) (x y : TaxRuleVersion)
    → IsUnambiguous a
    → Origin rule a x
    → Origin rule a y
    → has_status x.status active ≡ true
    → has_status y.status active ≡ true
    → (x.jurisdiction == y.jurisdiction) ≡ true
    → (x.effective_from == y.effective_from) ≡ true
    → x.pk ≡ y.pk
Origin-IsUnambiguous rule a x y h (inr (inl (z, _, _, e))) oy sx sy j d =
    let off : has_status x.status active ≡ false =
      ap (λ (w : TaxRuleVersion). has_status w.status active) e in
    cc
Origin-IsUnambiguous rule a x y h ox (inr (inl (z, _, _, e))) sx sy j d =
    let off : has_status y.status active ≡ false =
      ap (λ (w : TaxRuleVersion). has_status w.status active) e in
    cc
Origin-IsUnambiguous rule a x y h (inl (_, px, _, _, _, _)) (inl (_, py, _, _, _, _)) sx sy j d =
    px ∙ sym py
Origin-IsUnambiguous rule a x y h (inl (_, _, jx, dx, _, _)) (inr (inr (_, f))) sx sy j d =
    let absurd : ⊥ =
      clash rule y x.jurisdiction x.effective_from f sy (flip_eq x.jurisdiction y.jurisdiction j)
        (flip_eq x.effective_from y.effective_from d) jx dx in
    elim absurd [ ]
Origin-IsUnambiguous rule a x y h (inr (inr (_, f))) (inl (_, _, jy, dy, _, _)) sx sy j d =
    let absurd : ⊥ = clash rule x y.jurisdiction y.effective_from f sx j d jy dy in elim absurd [ ]
Origin-IsUnambiguous rule a x y h (inr (inr (m, _))) (inr (inr (n, _))) sx sy j d =
    h x y m n sx sy j d

abbrev IsSound : List TaxRuleVersion → Type 0
IsSound rules = IsReviewed rules × IsUnambiguous rules

activate_rule-IsSound :
    (rule : TaxRuleVersion) (now : ℕ) (a b : List TaxRuleVersion)
    → IsStored rule a
    → activate_rule rule now a ≡ ok b
    → IsSound a
    → IsSound b
unfolding activate_rule
activate_rule-IsSound rule now a b stored e (clean, one) =
    Ensures-elim IsSound (activate_rule rule now a) b
      (Ensures-bind IsSound
        (raise_unless (has_status rule.status approved)
          (validation_error "tax rules require approval before activation"))
        _
        λ _ passed. (
          (λ y m s.
              Origin-IsReviewed rule a y (raise_unless-ok _ _ passed) clean
                (activated-Origin rule now a y stored m) s),
          (λ x y m n.
              Origin-IsUnambiguous rule a x y one (activated-Origin rule now a x stored m)
                (activated-Origin rule now a y stored n)),
        ))
      e

kept_active :
    (rule : TaxRuleVersion) (actor now : ℕ) (a : List TaxRuleVersion) (y : TaxRuleVersion)
    → Elem y (update_where (λ r. r.pk == rule.pk) (with_approval actor now) a)
    → has_status y.status active ≡ true
    → Elem y a
kept_active rule actor now a y m on =
    let (x, old, way) = Elem-update_where (λ r. r.pk == rule.pk) (with_approval actor now) a y m in
    elim way [
      | inl (_, e) ↦
          let off : has_status y.status active ≡ false =
            ap (λ (w : TaxRuleVersion). has_status w.status active) e in
          cc
      | inr (_, same) ↦ subst (λ w. Elem w a) (sym same) old
    ]

approve_rule-IsUnambiguous :
    (rule : TaxRuleVersion) (actor now : ℕ) (a b : List TaxRuleVersion)
    → approve_rule rule actor now a ≡ ok b
    → IsUnambiguous a
    → IsUnambiguous b
unfolding approve_rule
approve_rule-IsUnambiguous rule actor now a b e h =
    Ensures-elim IsUnambiguous (approve_rule rule actor now a) b
      (Ensures-bind IsUnambiguous
        (raise_unless (has_status rule.status validated && is_empty rule.validation_errors)
          (validation_error "only successfully validated tax rules can be approved"))
        _
        λ _ _ x y m n sx sy.
          h x y (kept_active rule actor now a x m sx) (kept_active rule actor now a y n sy) sx sy)
      e

-- Whatever is imported, approved and activated, on rules as they are stored: every rule that is
-- approved, active or retired was validated without errors and names its approver, and no
-- jurisdiction has two active rules that start on the same day, if both hold at the start.
pub RuleHistory-IsSound :
    (s t : List TaxRuleVersion)
    → RuleHistory s t
    → IsReviewed s × IsUnambiguous s
    → IsReviewed t × IsUnambiguous t
RuleHistory-IsSound s _ start h = h
RuleHistory-IsSound s b (imported {a = a} jurisdictions p today pk first_status rule history e) h =
    let (clean, one) = RuleHistory-IsSound s a history h in
    let new =
      Ensures-elim (IsImport a) (import_tax_table jurisdictions p today pk first_status a) (rule, b)
        (import_tax_table-Ensures jurisdictions p today pk first_status a) e in
    (imported-IsReviewed a b rule new clean, imported-IsUnambiguous a b rule new one)
RuleHistory-IsSound s b (reviewed {a = a} rule actor now history stored e) h =
    let (clean, one) = RuleHistory-IsSound s a history h in
    (
      approve_rule-IsReviewed rule actor now a b stored e clean,
      approve_rule-IsUnambiguous rule actor now a b e one,
    )
RuleHistory-IsSound s b (activated {a = a} rule now history stored e) h =
    activate_rule-IsSound rule now a b stored e (RuleHistory-IsSound s a history h)
