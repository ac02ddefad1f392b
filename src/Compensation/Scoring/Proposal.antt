-- ===== src/Compensation/Scoring/Proposal.antt =====
-- What a recommendation that was created rests on, and that it changes no pay.
use payroll_management_syste.Prelude.{
  ℕ, ◌+◌, ◌≡◌, refl, ap, sym, subst, ◌∙◌, map, any, Elem, Elem-any, String, List, arith, Bool, true,
  false, Option, none, [], ◌∷◌, ◌++◌, str_eq, str_eq_iff,
}
use payroll_management_syste.Outcome.{ok, Ensures-bind, Ensures-elim}
use payroll_management_syste.Decimal.{Decimal, whole, add, sub, mul, div, quantize, le}
use payroll_management_syste.Effective.{effective_sound}
use payroll_management_syste.Effective.Newest.{IsWithin, IsNewest}
use payroll_management_syste.Compensation.Scoring.Basis.{
  IsSalaryOf, AreNewestRules, AreScored, summed, is_none_sound, current_salary-IsNewest,
  rules_as_of-AreNewestRules, total_weight-summed, score_rules-Ensures,
}
use payroll_management_syste.Compensation.Models.{
  ScoringRule, ScoreLine, education, experience, inflation_index, market_benchmark, performance,
  role_level, skills, tenure, CompensationPolicy, Salary, CompensationRecommendation,
  CompensationStore, pending_approval,
}
use payroll_management_syste.Compensation.Scoring.{
  is_in_force, has_prohibited, rules_as_of, criteria, total_weight, score_rules, proposed,
  SourceData, create_recommendation,
}
use payroll_management_syste.Compensation.Scoring.Computed.{
  IsComputed, create_recommendation-Ensures,
}

-- The amounts that the score proposes for a salary, in cents.
abbrev AreAmounts : CompensationPolicy → Decimal → CompensationRecommendation → Type 0
AreAmounts p amount r =
    (part : Decimal) × (div
        (mul (sub p.maximum_adjustment_percent p.minimum_adjustment_percent) r.score) (whole 100)
      ≡ ok part)
    × (quantize 2 (mul amount (add (whole 1) (add p.minimum_adjustment_percent part)))
        ≡ ok r.proposed_midpoint)
    × (quantize 2 (sub r.proposed_midpoint amount) ≡ ok r.proposed_adjustment)
    × (quantize 2 (mul amount (add (whole 1) p.minimum_adjustment_percent)) ≡ ok r.proposed_min)
    × (quantize 2 (mul amount (add (whole 1) p.maximum_adjustment_percent)) ≡ ok r.proposed_max)

proposed-Ensures :
    (p : CompensationPolicy) (amount score : Decimal) (r : CompensationRecommendation)
    → r.score ≡ score
    → proposed p amount score
      ≡ ok (r.proposed_midpoint, r.proposed_adjustment, r.proposed_min, r.proposed_max)
    → AreAmounts p amount r
unfolding proposed
proposed-Ensures p amount score r same e =
    let P = λ (x : Decimal × Decimal × Decimal × Decimal).
      (part : Decimal) × (div
          (mul (sub p.maximum_adjustment_percent p.minimum_adjustment_percent) r.score) (whole 100)
        ≡ ok part)
      × (quantize 2 (mul amount (add (whole 1) (add p.minimum_adjustment_percent part))) ≡ ok x.0)
      × (quantize 2 (sub x.0 amount) ≡ ok x.1)
      × (quantize 2 (mul amount (add (whole 1) p.minimum_adjustment_percent)) ≡ ok x.2)
      × (quantize 2 (mul amount (add (whole 1) p.maximum_adjustment_percent)) ≡ ok x.3) in
    Ensures-elim P (proposed p amount score)
      (r.proposed_midpoint, r.proposed_adjustment, r.proposed_min, r.proposed_max)
      (Ensures-bind P (div _ _) _ λ part divided. Ensures-bind P (quantize 2 _) _ λ midpoint a.
        Ensures-bind P (quantize 2 _) _ λ adjustment b. Ensures-bind P (quantize 2 _) _ λ least c.
          Ensures-bind P (quantize 2 _) _ λ largest d. (
            part,
            ap
                  (λ z.
                    div (mul (sub p.maximum_adjustment_percent p.minimum_adjustment_percent) z)
                      (whole 100))
                  same
                ∙ divided,
            a,
            b,
            c,
            d,
          ))
      e

-- The policy is active and in force on the day, and prohibits none of the fields supplied.
abbrev IsUsable : ℕ → CompensationPolicy → SourceData → Type 0
IsUsable date p data_given =
    (p.is_active ≡ true)
    × (p.archived_at ≡ none)
    × IsWithin p.effective_from p.effective_to date
    × ((name : String) → Elem name p.prohibited_criteria → Elem name data_given.fields → ⊥)

-- The recommendation is pending and rests on the salary and the rules of the day; the tables have
-- this one row more.
abbrev pub IsProposal :
    ℕ
    → ℕ
    → CompensationPolicy
    → ℕ
    → SourceData
    → Option ℕ
    → CompensationStore
    → CompensationRecommendation × CompensationStore
    → Type 0
IsProposal organization employee p date data_given actor s (r, s') =
    (salary : Salary) × (rules : List ScoringRule) × (points : List Decimal) × (ratio : Decimal)
    × (p.organization ≡ organization)
    × IsUsable date p data_given
    × AreNewestRules p.pk date s.rules
        (education ∷ experience ∷ inflation_index ∷ market_benchmark ∷ performance ∷ role_level
          ∷ skills ∷ tenure ∷ [])
        rules
    × (le (summed (whole 0) (map (λ (x : ScoringRule). x.weight) rules)) (whole 0) ≡ false)
    × AreScored data_given (summed (whole 0) (map (λ (x : ScoringRule). x.weight) rules)) rules
        r.score_breakdown points
    × (div (summed (whole 0) points) (summed (whole 0) (map (λ (x : ScoringRule). x.weight) rules))
        ≡ ok ratio)
    × (quantize 4 (mul ratio (whole 100)) ≡ ok r.score)
    × IsNewest (λ x. x.effective_from) (λ x. x.pk) (IsSalaryOf employee date) salary s.salaries
    × (salary.currency ≡ p.currency)
    × AreAmounts p salary.amount r
    × (r.current_salary ≡ salary.pk)
    × (r.status ≡ pending_approval)
    × (r.resulting_salary ≡ none)
    × (r.created_by ≡ actor)
    × (s' ≡ record s {
      recommendations = s.recommendations ++ r ∷ [];
      next_recommendation = s.next_recommendation + 1;
    })

usable :
    (date : ℕ) (p : CompensationPolicy) (data_given : SourceData)
    → is_in_force date p ≡ true
    → has_prohibited p data_given ≡ false
    → IsUsable date p data_given
usable date p data_given h allowed = (
  ground arith,
  is_none_sound p.archived_at (ground arith),
  effective_sound p.effective_from p.effective_to date (ground arith),
  λ name m n.
      let given : any (str_eq name) data_given.fields ≡ true =
        Elem-any (str_eq name) data_given.fields name n ((str_eq_iff name name).1 refl) in
      let clash : has_prohibited p data_given ≡ true =
        Elem-any (λ name. any (str_eq name) data_given.fields) p.prohibited_criteria name m given in
      let mixed : true ≡ false = sym clash ∙ allowed in cc,
)

-- A recommendation that is created is pending and adds one row to the recommendations, with no other
-- change. It rests on a policy of the organization that is active and in force and prohibits none of
-- the fields supplied; for each criterion, on the newest of the policy's rules in force, if there is
-- one, with weights of more than zero in all; and on the newest of the employee's salaries in force,
-- in the policy's currency. Each rule scores the share of its thresholds' span that the supplied value
-- reaches, kept between zero and one; the score is the sum of these shares times their weights over
-- the sum of the weights, in percent to four places, and the amounts follow from it in cents.
pub create_recommendation_proposes :
    (organization employee : ℕ) (p : CompensationPolicy) (date : ℕ) (data_given : SourceData)
    (actor : Option ℕ) (reviewed : Bool) (s s' : CompensationStore) (r : CompensationRecommendation)
    → create_recommendation organization employee p date data_given actor reviewed s ≡ ok (r, s')
    → IsProposal organization employee p date data_given actor s (r, s')
create_recommendation_proposes organization employee p date data_given actor reviewed s s' r e =
    let rules = rules_as_of p.pk date s.rules criteria in
    let weights = total_weight rules (whole 0) in
    let (
      salary, scored, ratio, own, in_force, allowed, weighty, scores, divided, rounded, found,
      currency, given, current, status, unapplied, creator, written,
    ) =
      Ensures-elim (IsComputed organization employee p date data_given actor s)
        (create_recommendation organization employee p date data_given actor reviewed s) (r, s')
        (create_recommendation-Ensures organization employee p date data_given actor reviewed s)
        e in
    let all = total_weight-summed rules (whole 0) in
    let (points, lines, sum) =
      Ensures-elim
        (λ (x : Decimal × List ScoreLine).
          (points : List Decimal) × AreScored data_given weights rules x.1 points
          × (x.0 ≡ summed (whole 0) points))
        (score_rules data_given weights rules (whole 0)) (scored, r.score_breakdown)
        (score_rules-Ensures data_given weights rules (whole 0)) scores in
    (
      salary,
      rules,
      points,
      ratio,
      own,
      usable date p data_given in_force allowed,
      rules_as_of-AreNewestRules p.pk date s.rules criteria,
      subst (λ w. le w (whole 0) ≡ false) all weighty,
      subst (λ w. AreScored data_given w rules r.score_breakdown points) all lines,
      ap (λ x. div x (summed (whole 0) (map (λ (y : ScoringRule). y.weight) rules))) (sym sum)
          ∙ ap (div scored) (sym all)
          ∙ divided,
      rounded,
      current_salary-IsNewest employee date s.salaries salary found,
      currency,
      proposed-Ensures p salary.amount r.score r refl given,
      current,
      status,
      unapplied,
      creator,
      written,
    )
