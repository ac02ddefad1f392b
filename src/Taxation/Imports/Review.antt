-- ===== src/Taxation/Imports/Review.antt =====
-- What holds of the rules after any imports, approvals and activations.
use payroll_management_syste.Prelude.{
  Elem-update_where, ℕ, ◌≡◌, refl, sym, ap, subst, ◌∙◌, ◌⊎◌, inl, inr, Bool, true, false, ◌&&◌,
  some, List, [], ◌∷◌, ◌++◌, str_eq, ◌==◌, any, Elem,
}
use payroll_management_syste.Outcome.{
  ok, validation_error, key_error, integrity_error, does_not_exist, or_raise, raise_if,
  raise_unless, raise_unless-ok, Ensures, Ensures-bind, Ensures-elim,
}
use payroll_management_syste.Taxation.Models.{
  RuleStatus, Jurisdiction, PayloadError, TaxRuleVersion, has_status, validated, approved, active,
  retired,
}
use payroll_management_syste.Taxation.Engine.{jurisdiction_by_code}
use payroll_management_syste.Taxation.Imports.{
  TaxPayload, validate_payload, start_of, initial_status, import_tax_table, ends_early, is_empty,
  approve_rule, with_approval, activate_rule,
}

-- The rule is the stored row with its key.
abbrev pub IsStored : TaxRuleVersion → List TaxRuleVersion → Type 0
IsStored rule rules = (x : TaxRuleVersion) → Elem x rules → (x.pk == rule.pk) ≡ true → x ≡ rule

-- The tables that the three services reach, with the arguments of each call.
pub data RuleHistory : List TaxRuleVersion → List TaxRuleVersion → Type 0 where
  start : {s : List TaxRuleVersion} → RuleHistory s s
  imported :
      {s a b : List TaxRuleVersion} (jurisdictions : List Jurisdiction) (p : TaxPayload)
      (today pk first_status : ℕ) (rule : TaxRuleVersion)
      → RuleHistory s a
      → import_tax_table jurisdictions p today pk first_status a ≡ ok (rule, b)
      → RuleHistory s b
  reviewed :
      {s a b : List TaxRuleVersion} (rule : TaxRuleVersion) (actor now : ℕ)
      → RuleHistory s a
      → IsStored rule a
      → approve_rule rule actor now a ≡ ok b
      → RuleHistory s b
  activated :
      {s a b : List TaxRuleVersion} (rule : TaxRuleVersion) (now : ℕ)
      → RuleHistory s a
      → IsStored rule a
      → activate_rule rule now a ≡ ok b
      → RuleHistory s b

-- `approved`, `active` or `retired`
abbrev pub is_reviewed : RuleStatus → Bool
is_reviewed approved = true
is_reviewed active = true
is_reviewed retired = true
is_reviewed _ = false

-- A rule that is or was ready for use had a valid table, and has an approver.
abbrev pub IsReviewed : List TaxRuleVersion → Type 0
IsReviewed rules =
    (r : TaxRuleVersion)
    → Elem r rules
    → is_reviewed r.status ≡ true
    → (r.validation_errors ≡ []) × ((approver : ℕ) × (r.approved_by ≡ some approver))

-- A jurisdiction has one active rule from a day on.
abbrev pub IsUnambiguous : List TaxRuleVersion → Type 0
IsUnambiguous rules =
    (x y : TaxRuleVersion)
    → Elem x rules
    → Elem y rules
    → has_status x.status active ≡ true
    → has_status y.status active ≡ true
    → (x.jurisdiction == y.jurisdiction) ≡ true
    → (x.effective_from == y.effective_from) ≡ true
    → x.pk ≡ y.pk

-- An imported rule is a draft or validated, and stands behind the others.
abbrev pub IsImport : List TaxRuleVersion → TaxRuleVersion × List TaxRuleVersion → Type 0
IsImport a (rule, b) =
    (errors : List PayloadError) × (rule.status ≡ initial_status errors)
    × (rule.validation_errors ≡ errors)
    × (b ≡ a ++ rule ∷ [])

pub import_tax_table-Ensures :
    (jurisdictions : List Jurisdiction) (p : TaxPayload) (today pk first_status : ℕ)
    (a : List TaxRuleVersion)
    → Ensures (IsImport a) (import_tax_table jurisdictions p today pk first_status a)
unfolding import_tax_table
import_tax_table-Ensures jurisdictions p today pk first_status a =
    let P = IsImport a in
    Ensures-bind P (or_raise p.jurisdiction (key_error "jurisdiction")) _ λ code _.
      Ensures-bind P (or_raise (jurisdiction_by_code jurisdictions code) does_not_exist) _
        λ jurisdiction _. Ensures-bind P (or_raise p.version (key_error "version")) _ λ version _.
          Ensures-bind P (start_of p.effective_from today) _ λ date _.
            Ensures-bind P
              (raise_if (any (λ r. r.jurisdiction == jurisdiction.pk && str_eq r.version version) a)
                integrity_error)
              _
              λ _ _.
                Ensures-bind P (raise_if (ends_early date p.effective_to) integrity_error) _
                  λ _ _. (validate_payload p, refl, refl, refl)

Elem-appended :
    (x r : TaxRuleVersion) (a : List TaxRuleVersion) → Elem x (a ++ r ∷ []) → Elem x a ⊎ (x ≡ r)
Elem-appended x r [] (inl e) = inr e
Elem-appended x r [] (inr m) = elim m [ ]
Elem-appended x r (y ∷ a) (inl e) = inl (inl e)
Elem-appended x r (y ∷ a) (inr m) = elim (Elem-appended x r a m) [
  | inl n ↦ inl (inr n)
  | inr e ↦ inr e
]

new_is_open :
    (errors : List PayloadError)
    → (is_reviewed (initial_status errors) ≡ false)
      × (has_status (initial_status errors) active ≡ false)
new_is_open [] = (refl, refl)
new_is_open (_ ∷ _) = (refl, refl)

pub imported-IsReviewed :
    (a b : List TaxRuleVersion) (rule : TaxRuleVersion)
    → IsImport a (rule, b)
    → IsReviewed a
    → IsReviewed b
imported-IsReviewed a b rule (errors, status, _, grown) h r m s =
    elim (Elem-appended r rule a (subst (Elem r) grown m)) [
      | inl old ↦ h r old s
      | inr same ↦
          let open_rule : is_reviewed r.status ≡ false =
            ap (λ (x : TaxRuleVersion). is_reviewed x.status) same
            ∙ ap is_reviewed status
            ∙ (new_is_open errors).0 in
          cc
    ]

pub imported-IsUnambiguous :
    (a b : List TaxRuleVersion) (rule : TaxRuleVersion)
    → IsImport a (rule, b)
    → IsUnambiguous a
    → IsUnambiguous b
imported-IsUnambiguous a b rule (errors, status, _, grown) h x y m n sx sy j d =
    let idle : (r : TaxRuleVersion) → r ≡ rule → has_status r.status active ≡ false = λ r same.
      ap (λ (z : TaxRuleVersion). has_status z.status active) same
      ∙ ap (λ z. has_status z active) status
      ∙ (new_is_open errors).1 in
    elim (Elem-appended x rule a (subst (Elem x) grown m)) [
      | inr same ↦ let off = idle x same in cc
      | inl oldx ↦ elim (Elem-appended y rule a (subst (Elem y) grown n)) [
        | inr same ↦ let off = idle y same in cc
        | inl oldy ↦ h x y oldx oldy sx sy j d
      ]
    ]

empty_errors : (errors : List PayloadError) (b : Bool) → (b && is_empty errors) ≡ true → errors ≡ []
empty_errors [] b e = refl
empty_errors (_ ∷ _) true e = cc
empty_errors (_ ∷ _) false e = cc

pub approve_rule-IsReviewed :
    (rule : TaxRuleVersion) (actor now : ℕ) (a b : List TaxRuleVersion)
    → IsStored rule a
    → approve_rule rule actor now a ≡ ok b
    → IsReviewed a
    → IsReviewed b
unfolding approve_rule
approve_rule-IsReviewed rule actor now a b stored e h =
    Ensures-elim IsReviewed (approve_rule rule actor now a) b
      (Ensures-bind IsReviewed
        (raise_unless (has_status rule.status validated && is_empty rule.validation_errors)
          (validation_error "only successfully validated tax rules can be approved"))
        _
        λ _ passed r m s.
          let (x, old, way) =
            Elem-update_where (λ y. y.pk == rule.pk) (with_approval actor now) a r m in
          elim way [
            | inl (t, changed) ↦
                let clean : x.validation_errors ≡ [] =
                  ap (λ (z : TaxRuleVersion). z.validation_errors) (stored x old t)
                  ∙ empty_errors rule.validation_errors (has_status rule.status validated)
                      (raise_unless-ok _ _ passed) in
                (
                  ap (λ (z : TaxRuleVersion). z.validation_errors) changed ∙ clean,
                  (actor, ap (λ (z : TaxRuleVersion). z.approved_by) changed),
                )
            | inr (f, same) ↦
                subst
                  (λ (z : TaxRuleVersion).
                    is_reviewed z.status ≡ true
                    → (z.validation_errors ≡ [])
                      × ((approver : ℕ) × (z.approved_by ≡ some approver)))
                  (sym same) (h x old) s
          ])
      e
