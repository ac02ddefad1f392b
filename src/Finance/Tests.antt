-- ===== src/Finance/Tests.antt =====
-- A ledger of three entries, and a prediction from two observations in the wrong order.
use payroll_management_syste.Prelude.{ℕ, ◌≡◌, refl, none, List, [], ◌∷◌, arith}
use payroll_management_syste.Outcome.{ok}
use payroll_management_syste.Prelude.Int.{neg_ℤ, ℤ, ◌+ℤ◌, pos, negsuc}
use payroll_management_syste.Decimal.{max_of, decimal, cents, computing}
use payroll_management_syste.Finance.Models.{
  MetricType, Account, LedgerEntry, AccountCategory, revenue, tax, payroll_cost,
}
use payroll_management_syste.Finance.Calculations.{
  money, total_or_zero, total, gross_profit, operating_profit, after_tax_result, coverage_margin,
}
use payroll_management_syste.Finance.Calculations.Exact.{worth, profits_exact}
use payroll_management_syste.Finance.Forecasting.{
  max_deviation, sum_values, forecast_value, point_at, points_from, trend_of, insert_observation,
  sort_observations, predict_sorted, isqrt, sqrt_of, create_prediction, Observation, ForecastRun,
  ForecastPoint,
}
use payroll_management_syste.Finance.Forecasting.Points.{create_prediction_dated, IsPrediction}

abbrev accounts : List Account
accounts =
    record { pk = 1; organization = 1; category = revenue }
    ∷ record { pk = 2; organization = 1; category = payroll_cost }
    ∷ record { pk = 3; organization = 1; category = tax }
    ∷ []

abbrev entry : ℕ → ℕ → ℤ → LedgerEntry
entry pk account amount = record {
  pk = pk;
  organization = 1;
  account = account;
  entry_date = 738886;
  amount = amount;
  product = none;
  investment_fund = none;
  policy = none;
}

abbrev entries : List LedgerEntry
entries = entry 1 1 (pos 500000) ∷ entry 2 2 (pos 120000) ∷ entry 3 3 (negsuc 999) ∷ []

-- Taxes that were refunded raise the result.
after_tax_test : after_tax_result accounts entries ≡ ok (cents (pos 381000))
unfolding after_tax_result operating_profit gross_profit total total_or_zero money computing
after_tax_test = refl

square_root_test : sqrt_of 2 ≡ decimal (pos 1414213562373095048801688724) 27
unfolding sqrt_of isqrt
square_root_test = refl

abbrev observations : List Observation
observations = (738886, cents (pos 10000)) ∷ (738856, cents (pos 4000)) ∷ []

abbrev point : ForecastPoint
point = record {
  forecast_date = 738916;
  predicted_value = decimal (pos 1600000) 4;
  confidence_low = decimal (pos 1300000) 4;
  confidence_high = decimal (pos 1900000) 4;
}

abbrev run : ForecastRun
run = record {
  organization = 1;
  metric_type = MetricType.gross_profit;
  model_version = "linear-trend-v1";
  source_data_start = 738856;
  source_data_end = 738886;
}

predicted : create_prediction 1 MetricType.gross_profit observations 1 ≡ ok (run, point ∷ [])
unfolding create_prediction predict_sorted sort_observations insert_observation trend_of points_from
    point_at forecast_value sum_values max_deviation max_of sqrt_of isqrt computing
predicted = refl

profits_exact_example :
    let sum = worth accounts entries in
    let gross = sum AccountCategory.revenue +ℤ neg_ℤ (sum AccountCategory.operating_cost) in
    let operating = gross +ℤ neg_ℤ (sum AccountCategory.payroll_cost) in
    (gross_profit accounts entries ≡ ok (cents gross))
    × (operating_profit accounts entries ≡ ok (cents operating))
    × (after_tax_result accounts entries
        ≡ ok (cents (operating +ℤ neg_ℤ (sum AccountCategory.tax))))
    × (coverage_margin accounts entries
        ≡ ok (
            cents (
              sum AccountCategory.insurance_premium
              +ℤ neg_ℤ (sum AccountCategory.insurance_claim))))
profits_exact_example = profits_exact accounts entries (omega arith)

create_prediction_dated_example : IsPrediction observations 1 (run, point ∷ [])
create_prediction_dated_example =
    create_prediction_dated 1 MetricType.gross_profit observations 1 (run, point ∷ []) predicted
