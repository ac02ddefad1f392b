-- ===== src/Taxation/Engine/Choice.antt =====
-- Which rule `active_rule_for` chooses.
use payroll_management_syste.Prelude.{
  select-All, All-map, Elem-select, select-Elem, ℕ, ◌≤◌, ◌≡◌, refl, ap, subst, inl, inr, true,
  false, some, List, arith, Option-cases, select, All, Elem,
}
use payroll_management_syste.Outcome.{or_raise-ok, ok}
use payroll_management_syste.Effective.{
  latest-none, is_later, effective_sound, effective_complete, latest, latest-IsLatest,
}
use payroll_management_syste.Taxation.Models.{
  status_code, draft, validated, approved, retired, rejected, RuleStatus, Jurisdiction,
  TaxRuleVersion, has_status, active,
}
use payroll_management_syste.Taxation.Engine.{is_candidate, active_rule_for}

-- The rule is active, of the jurisdiction, and in force on the date.
abbrev pub IsRuleFor : ℕ → ℕ → TaxRuleVersion → Type 0
IsRuleFor jurisdiction on_date rule =
    (rule.jurisdiction ≡ jurisdiction)
    × (rule.status ≡ active)
    × (rule.effective_from ≤ on_date)
    × ((stop : ℕ) → rule.effective_to ≡ some stop → on_date ≤ stop)

is_active : (s : RuleStatus) → has_status s active ≡ true → s ≡ active
is_active draft h = cc
is_active validated h = cc
is_active approved h = cc
is_active active h = refl
is_active retired h = cc
is_active rejected h = cc

candidate_sound :
    (j d : ℕ) (rule : TaxRuleVersion) → is_candidate j d rule ≡ true → IsRuleFor j d rule
candidate_sound j d rule h =
    let (start, stop) = effective_sound rule.effective_from rule.effective_to d (ground arith) in
    (ground arith, is_active rule.status (ground arith), start, stop)

candidate_complete :
    (j d : ℕ) (rule : TaxRuleVersion) → IsRuleFor j d rule → is_candidate j d rule ≡ true
candidate_complete j d rule (here, running, start, stop) =
    let inside = effective_complete rule.effective_from rule.effective_to d start stop in
    ground (arith, ap status_code running)

-- The rule chosen is one of the stored ones, active, of the jurisdiction and in force on the pay
-- date, and no other such rule has a later start, or the same start and a larger key.
pub active_rule_for-IsLatest :
    (rules : List TaxRuleVersion) (jurisdiction : Jurisdiction) (on_date : ℕ)
    (rule : TaxRuleVersion)
    → active_rule_for rules jurisdiction on_date ≡ ok rule
    → Elem rule rules
      × IsRuleFor jurisdiction.pk on_date rule
      × All
          (λ r.
            IsRuleFor jurisdiction.pk on_date r
            → is_later (λ (x : TaxRuleVersion). x.effective_from) (λ x. x.pk) r rule ≡ false)
          rules
unfolding active_rule_for
active_rule_for-IsLatest rules jurisdiction on_date rule e =
    let wanted = is_candidate jurisdiction.pk on_date in
    let (mem, top) =
      latest-IsLatest (λ r. r.effective_from) (λ r. r.pk) (select wanted rules) rule
        (or_raise-ok _ _ e) in
    let (stored, holds) = Elem-select wanted rules rule mem in
    (
      stored,
      candidate_sound jurisdiction.pk on_date rule holds,
      All-map _ _ rules (λ r below fit. below (candidate_complete jurisdiction.pk on_date r fit))
          (select-All _ wanted rules top),
    )

-- A rule is chosen whenever the tables have an active rule of the jurisdiction that is in force on
-- the pay date.
pub active_rule_for_total :
    (rules : List TaxRuleVersion) (jurisdiction : Jurisdiction) (on_date : ℕ) (r : TaxRuleVersion)
    → Elem r rules
    → IsRuleFor jurisdiction.pk on_date r
    → (rule : TaxRuleVersion) × (active_rule_for rules jurisdiction on_date ≡ ok rule)
unfolding active_rule_for
active_rule_for_total rules jurisdiction on_date r m h =
    let wanted = is_candidate jurisdiction.pk on_date in
    let inside = select-Elem wanted rules r m (candidate_complete jurisdiction.pk on_date r h) in
    elim (Option-cases
      (latest (λ (x : TaxRuleVersion). x.effective_from) (λ x. x.pk) (select wanted rules))) [
        | inl absent ↦ absurd (subst (Elem r) (latest-none _ _ (select wanted rules) absent) inside)
        | inr (rule, found) ↦ (rule, rw found)
      ]
