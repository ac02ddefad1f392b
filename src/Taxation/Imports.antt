-- ===== src/Taxation/Imports.antt =====
-- apps/taxation/services/imports.py: the validation of an imported table, and the approval and
-- activation of a rule. The payload is the dictionary after the parsing of its texts. Tax years,
-- allowances and contribution limits, which nothing reads, are left out, with the checksum.
pub mod Review
pub mod Activation
use payroll_management_syste.Prelude.{
  ℕ, zero, suc, ◌+◌, ◌-◌, ◌*◌, ◌/◌, ◌%◌, ◌^◌, ◌≤◌, ◌<◌, max, min, String, ◌≡◌, refl, sym, ap, subst,
  ◌∙◌, ◌≢◌, ◌↔◌, ◌⊎◌, inl, inr, Bool, true, false, not, ◌&&◌, ◌||◌, Option, none, some,
  some-injective, List, [], ◌∷◌, ◌++◌, map, append-nil, append_assoc, arith, str_eq, str_eq_iff,
  ltb, leb, ◌==◌, if◌then◌else◌, ==_iff, Bool-cases, Option-cases, length, length-append, any, all,
  select, find, update_where, All, All-append, any-append, Elem, find-Elem, Elem-any, find_sound,
  select-append, All-select, All-map, Elem-select, select-Elem, select-All, find-append_new,
  length-update_where,
}
use payroll_management_syste.Outcome.{
  Result, ok, err, validation_error, key_error, integrity_error, does_not_exist, or_raise, raise_if,
  raise_unless, ◌>>=◌, ◌>>◌,
}
use payroll_management_syste.Decimal.{Decimal, whole, lt, le}
use payroll_management_syste.Taxation.Models.{
  RuleStatus, Jurisdiction, FilingStatus, TaxBracket, EmployerTax, PayloadError, TaxRuleVersion,
  has_status, status_code, draft, validated, approved, active, retired, rejected, missing_fields,
  bad_effective_from, bad_bounds, bad_numbers,
}
use payroll_management_syste.Taxation.Engine.{jurisdiction_by_code}

-- A number of the payload: the key is missing, its text is no number, or the number.
pub data Field : Type 0 where
  absent malformed : Field
  number : Decimal → Field

pub record BracketPayload : Type 0 where
  pub filing_status : Option String
  pub lower_bound : Field
  -- absent also when it is null
  pub upper_bound : Field
  pub rate : Field
  pub fixed_amount : Decimal

-- "effective_from": the key is missing, its text is no ISO date, or the date.
pub data DateField : Type 0 where
  absent malformed : DateField
  date : ℕ → DateField

pub record TaxPayload : Type 0 where
  pub jurisdiction : Option String
  pub version : Option String
  pub effective_from : DateField
  pub effective_to : Option ℕ
  pub filing_statuses : List String
  pub brackets : Option (List BracketPayload)
  pub employer_taxes : List EmployerTax

-- The numbers of a bracket; `none` when one of them raises.
unfoldable pub parsed_upper : Field → Option (Option Decimal)
parsed_upper Field.absent = some none
parsed_upper Field.malformed = none
parsed_upper (number d) = some (some d)

unfoldable pub parsed : BracketPayload → Option (Decimal × Option Decimal × Decimal)
parsed b = elim b.lower_bound [
  | number lower ↦ elim b.rate [
    | number rate ↦ elim (parsed_upper b.upper_bound) [
      | none ↦ none
      | some upper ↦ some (lower, upper, rate)
    ]
    | _ ↦ none
  ]
  | _ ↦ none
]

-- `upper is not None and upper <= lower`
abbrev pub is_inverted : Option Decimal → Decimal → Bool
is_inverted none lower = false
is_inverted (some upper) lower = le upper lower

abbrev or_previous : Option Decimal → Decimal → Decimal
or_previous none previous = previous
or_previous (some upper) previous = upper

-- The loop over the brackets, from an index and the upper bound before it.
unfoldable pub bracket_errors : ℕ → Decimal → List BracketPayload → List PayloadError
bracket_errors index previous [] = []
bracket_errors index previous (b ∷ bs) = elim (parsed b) [
  | none ↦ bad_numbers index ∷ bracket_errors (index + 1) previous bs
  | some (lower, upper, rate) ↦
      let rest = bracket_errors (index + 1) (or_previous upper previous) bs in
      if lt lower previous || lt rate (whole 0) || is_inverted upper lower
      then bad_bounds index ∷ rest
      else rest
]

abbrev is_absent {ℓ} : {A : Type ℓ} → Option A → Bool
is_absent none = true
is_absent (some _) = false

abbrev date_is_absent : DateField → Bool
date_is_absent DateField.absent = true
date_is_absent _ = false

abbrev date_errors : DateField → List PayloadError
date_errors (date _) = []
date_errors _ = bad_effective_from ∷ []

abbrev listed {ℓ} : {A : Type ℓ} → Option (List A) → List A
listed none = []
listed (some xs) = xs

-- `_validate_payload`
unfoldable pub validate_payload : TaxPayload → List PayloadError
validate_payload p =
    let missing =
      is_absent p.jurisdiction
      || is_absent p.version
      || date_is_absent p.effective_from
      || is_absent p.brackets in
    (if missing then missing_fields ∷ [] else [])
    ++ date_errors p.effective_from
    ++ bracket_errors 0 (whole 0) (listed p.brackets)

-- `payload.get("effective_from", date.today().isoformat())`, as the date field of the rule reads it.
unfoldable pub start_of : DateField → ℕ → Result ℕ
start_of DateField.absent today = ok today
start_of DateField.malformed today = err (validation_error "effective_from must be a date")
start_of (date d) today = ok d

-- The filing statuses with the keys that follow.
unfoldable pub statuses_from : ℕ → List String → List FilingStatus
statuses_from pk [] = []
statuses_from pk (code ∷ codes) = record { pk = pk; code = code } ∷ statuses_from (pk + 1) codes

-- `statuses.get(item.get("filing_status"))`
abbrev status_key : List FilingStatus → Option String → Option ℕ
status_key statuses none = none
status_key statuses (some code) = elim (find (λ s. str_eq s.code code) statuses) [
  | none ↦ none
  | some s ↦ some s.pk
]

unfoldable pub brackets_of : List FilingStatus → List BracketPayload → List TaxBracket
brackets_of statuses [] = []
brackets_of statuses (b ∷ bs) = elim (parsed b) [
  | none ↦ brackets_of statuses bs
  | some (lower, upper, rate) ↦
      record {
        filing_status = status_key statuses b.filing_status;
        lower_bound = lower;
        upper_bound = upper;
        rate = rate;
        fixed_amount = b.fixed_amount;
      }
      ∷ brackets_of statuses bs
]

abbrev pub initial_status : List PayloadError → RuleStatus
initial_status [] = validated
initial_status (_ ∷ _) = draft

abbrev kept {ℓ} : {A : Type ℓ} → List PayloadError → List A → List A
kept [] xs = xs
kept (_ ∷ _) xs = []

-- A last day that is before the first one, which `tax_rule_effective_dates_valid` excludes.
abbrev pub ends_early : ℕ → Option ℕ → Bool
ends_early start none = false
ends_early start (some stop) = ltb stop start

-- `import_tax_table`: the keys of the rule and of its first filing status are given, versions are
-- unique in a jurisdiction, and a rule does not end before it starts.
unfoldable pub import_tax_table :
    List Jurisdiction
    → TaxPayload
    → ℕ
    → ℕ
    → ℕ
    → List TaxRuleVersion
    → Result (TaxRuleVersion × List TaxRuleVersion)
import_tax_table jurisdictions p today pk first_status rules = do
  let errors = validate_payload p
  code ← or_raise p.jurisdiction (key_error "jurisdiction")
  jurisdiction ← or_raise (jurisdiction_by_code jurisdictions code) does_not_exist
  version ← or_raise p.version (key_error "version")
  start ← start_of p.effective_from today
  raise_if (any (λ r. r.jurisdiction == jurisdiction.pk && str_eq r.version version) rules)
      integrity_error
  raise_if (ends_early start p.effective_to) integrity_error
  let statuses = statuses_from first_status p.filing_statuses
  let rule : TaxRuleVersion = record {
    pk = pk;
    jurisdiction = jurisdiction.pk;
    version = version;
    status = initial_status errors;
    effective_from = start;
    effective_to = p.effective_to;
    validation_errors = errors;
    approved_by = none;
    approved_at = none;
    activated_at = none;
    filing_statuses = statuses;
    brackets = kept errors (brackets_of statuses (listed p.brackets));
    employer_taxes = kept errors p.employer_taxes;
  }
  ok (rule, rules ++ rule ∷ [])

abbrev pub is_empty {ℓ} : {A : Type ℓ} → List A → Bool
is_empty [] = true
is_empty (_ ∷ _) = false

abbrev pub with_approval : ℕ → ℕ → TaxRuleVersion → TaxRuleVersion
with_approval actor now r = record r {
  status = approved;
  approved_by = some actor;
  approved_at = some now;
}

-- `approve_rule`, on the rule as its caller has it.
unfoldable pub approve_rule :
    TaxRuleVersion → ℕ → ℕ → List TaxRuleVersion → Result (List TaxRuleVersion)
approve_rule rule actor now rules = do
  raise_unless (has_status rule.status validated && is_empty rule.validation_errors)
      (validation_error "only successfully validated tax rules can be approved")
  ok (update_where (λ r. r.pk == rule.pk) (with_approval actor now) rules)

-- The active rules that the activated one takes the place of.
abbrev pub is_replaced_by : TaxRuleVersion → TaxRuleVersion → Bool
is_replaced_by rule r =
    r.jurisdiction == rule.jurisdiction
    && has_status r.status active
    && r.effective_from == rule.effective_from

abbrev pub retire : TaxRuleVersion → TaxRuleVersion
retire r = record r { status = retired }

abbrev pub with_activation : ℕ → TaxRuleVersion → TaxRuleVersion
with_activation now r = record r { status = active; activated_at = some now }

-- `activate_rule`, on the rule as its caller has it.
unfoldable pub activate_rule :
    TaxRuleVersion → ℕ → List TaxRuleVersion → Result (List TaxRuleVersion)
activate_rule rule now rules = do
  raise_unless (has_status rule.status approved)
      (validation_error "tax rules require approval before activation")
  ok (
      update_where (λ r. r.pk == rule.pk) (with_activation now)
        (update_where (is_replaced_by rule) retire rules))
