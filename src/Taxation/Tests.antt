-- ===== src/Taxation/Tests.antt =====
-- The theorems about apps/taxation on a rule with one bracket.
use payroll_management_syste.Prelude.{
  ℕ, ◌≡◌, refl, inl, inr, true, false, none, some, List, [], ◌∷◌, arith, All, Elem,
}
use payroll_management_syste.Outcome.{ok}
use payroll_management_syste.Taxation.Imports.{
  TaxPayload, Field, DateField, number, import_tax_table, validate_payload, bracket_errors, parsed,
  parsed_upper, start_of, statuses_from, brackets_of, approve_rule, with_approval, activate_rule,
  with_activation,
}
use payroll_management_syste.Taxation.Imports.Review.{
  IsStored, RuleHistory, start, imported, reviewed, activated, IsReviewed, IsUnambiguous,
}
use payroll_management_syste.Taxation.Imports.Activation.{RuleHistory-IsSound}
use payroll_management_syste.Decimal.{computing, whole}
use payroll_management_syste.Prelude.Int.{pos}
use payroll_management_syste.Decimal.{decimal, cents}
use payroll_management_syste.Taxation.Engine.{TaxCalculationRequest, TaxCalculationResult, money}
use payroll_management_syste.Taxation.Table.{
  table_calculate, brackets_for, order_brackets, tax_loop, taxable_in, employer_tax_of,
}
use payroll_management_syste.Taxation.Table.Slices.{IsTableResult, table_calculate-IsTableResult}
use payroll_management_syste.Effective.{is_later, latest}
use payroll_management_syste.Taxation.Models.{Jurisdiction, TaxRuleVersion, active, validated}
use payroll_management_syste.Taxation.Engine.{active_rule_for}
use payroll_management_syste.Taxation.Engine.Choice.{
  IsRuleFor, active_rule_for-IsLatest, active_rule_for_total,
}

abbrev jurisdiction : Jurisdiction
jurisdiction = record {
  pk = 1;
  code = "US";
  calculator_key = "table";
  supported = true;
  filing_export_formats = [];
}

abbrev rule_from : ℕ → ℕ → TaxRuleVersion
rule_from pk day = record {
  pk = pk;
  jurisdiction = 1;
  version = "2024";
  status = active;
  effective_from = day;
  effective_to = none;
  validation_errors = [];
  approved_by = some 7;
  approved_at = some 1;
  activated_at = some 2;
  filing_statuses = [];
  brackets = [];
  employer_taxes = [];
}

abbrev rules : List TaxRuleVersion
rules = rule_from 4 10 ∷ rule_from 5 20 ∷ rule_from 6 30 ∷ []

chooses : active_rule_for rules jurisdiction 25 ≡ ok (rule_from 5 20)
unfolding active_rule_for latest
chooses = refl

active_rule_for-IsLatest_example :
    Elem (rule_from 5 20) rules
    × IsRuleFor 1 25 (rule_from 5 20)
    × All
        (λ r.
          IsRuleFor 1 25 r
          → is_later (λ (x : TaxRuleVersion). x.effective_from) (λ x. x.pk) r (rule_from 5 20)
            ≡ false)
        rules
active_rule_for-IsLatest_example =
    active_rule_for-IsLatest rules jurisdiction 25 (rule_from 5 20) chooses

active_rule_for_total_example :
    (rule : TaxRuleVersion) × (active_rule_for rules jurisdiction 25 ≡ ok rule)
active_rule_for_total_example =
    active_rule_for_total rules jurisdiction 25 (rule_from 4 10) (inl refl)
      (refl, refl, omega arith, λ stop e. cc)

abbrev draft_payload : TaxPayload
draft_payload = record {
  jurisdiction = some "US";
  version = some "2025";
  effective_from = DateField.date 40;
  effective_to = none;
  filing_statuses = [];
  employer_taxes = [];
  brackets = some (
      record {
        filing_status = none;
        lower_bound = number (whole 0);
        upper_bound = Field.absent;
        rate = number (whole 0);
        fixed_amount = whole 0;
      }
      ∷ []);
}

abbrev validated_rule : TaxRuleVersion
validated_rule = record (rule_from 7 40) {
  version = "2025";
  status = validated;
  approved_by = none;
  approved_at = none;
  activated_at = none;
  brackets =
      record {
        filing_status = none;
        lower_bound = whole 0;
        upper_bound = none;
        rate = whole 0;
        fixed_amount = whole 0;
      }
      ∷ [];
}

imports :
    import_tax_table (jurisdiction ∷ []) draft_payload 9 7 1 []
    ≡ ok (validated_rule, validated_rule ∷ [])
unfolding computing import_tax_table validate_payload bracket_errors parsed parsed_upper start_of
    statuses_from brackets_of
imports = refl

abbrev approved_rule : TaxRuleVersion
approved_rule = with_approval 3 11 validated_rule

approves : approve_rule validated_rule 3 11 (validated_rule ∷ []) ≡ ok (approved_rule ∷ [])
unfolding approve_rule
approves = refl

activates :
    activate_rule approved_rule 12 (approved_rule ∷ []) ≡ ok (with_activation 12 approved_rule ∷ [])
unfolding activate_rule
activates = refl

only_row : (rule : TaxRuleVersion) → IsStored rule (rule ∷ [])
only_row rule x (inl e) t = e
only_row rule x (inr m) t = elim m [ ]

year : RuleHistory [] (with_activation 12 approved_rule ∷ [])
year =
    activated approved_rule 12
      (reviewed validated_rule 3 11
        (imported (jurisdiction ∷ []) draft_payload 9 7 1 validated_rule start imports)
        (only_row validated_rule) approves)
      (only_row approved_rule) activates

RuleHistory-IsSound_example :
    IsReviewed (with_activation 12 approved_rule ∷ [])
    × IsUnambiguous (with_activation 12 approved_rule ∷ [])
RuleHistory-IsSound_example =
    RuleHistory-IsSound [] (with_activation 12 approved_rule ∷ []) year
      ((λ r m s. elim m [ ]), (λ x y m n sx sy j d. elim m [ ]))

abbrev table_rule : TaxRuleVersion
table_rule = record (rule_from 8 10) {
  brackets =
      record {
        filing_status = none;
        lower_bound = whole 0;
        upper_bound = some (whole 1000);
        rate = decimal (pos 1) 1;
        fixed_amount = whole 0;
      }
      ∷ record {
        filing_status = none;
        lower_bound = whole 1000;
        upper_bound = none;
        rate = decimal (pos 2) 1;
        fixed_amount = whole 0;
      }
      ∷ [];
}

abbrev wages_request : TaxCalculationRequest
wages_request = record {
  jurisdiction_code = "US";
  pay_date = 25;
  taxable_wages = whole 1500;
  year_to_date_wages = whole 0;
  filing_status = "single";
}

abbrev table_result : TaxCalculationResult
table_result = record {
  employee_tax = cents (pos 20000);
  employer_tax = cents (pos 0);
  jurisdiction_code = "US";
  rule_version = "2024";
  explanation =
      record { lower_bound = whole 0; taxable = whole 1000; rate = decimal (pos 1) 1 }
      ∷ record { lower_bound = whole 1000; taxable = whole 500; rate = decimal (pos 2) 1 }
      ∷ [];
}

calculates : table_calculate wages_request "US" table_rule ≡ ok table_result
unfolding computing table_calculate brackets_for order_brackets tax_loop taxable_in employer_tax_of
    money
calculates = refl

table_calculate-IsTableResult_example : IsTableResult wages_request "US" table_rule table_result
table_calculate-IsTableResult_example =
    table_calculate-IsTableResult wages_request "US" table_rule table_result calculates
