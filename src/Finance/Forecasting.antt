-- ===== src/Finance/Forecasting.antt =====
-- apps/finance/services/forecasting.py: the linear trend. A date is its ordinal, an observation a date
-- with a decimal.
pub mod Sorted
pub mod Points
use payroll_management_syste.Prelude.{
  ℕ, zero, suc, ◌+◌, ◌-◌, ◌*◌, ◌/◌, ◌%◌, ◌^◌, ◌≤◌, ◌<◌, max, min, String, ◌≡◌, refl, sym, ap, subst,
  ◌∙◌, ◌≢◌, ◌↔◌, ◌⊎◌, inl, inr, Bool, true, false, not, ◌&&◌, ◌||◌, Option, none, some,
  some-injective, List, [], ◌∷◌, ◌++◌, map, append-nil, append_assoc, arith, str_eq, str_eq_iff,
  ltb, leb, ◌==◌, if◌then◌else◌, ==_iff, Bool-cases, Option-cases, length, length-append, any, all,
  select, find, update_where, All, All-append, any-append, Elem, find-Elem, Elem-any, find_sound,
  select-append, All-select, All-map, Elem-select, select-Elem, select-All, find-append_new,
  length-update_where,
}
use payroll_management_syste.Outcome.{err, Result, ok, validation_error, raise_if, ◌>>=◌, ◌>>◌}
use payroll_management_syste.Prelude.Int.{pos}
use payroll_management_syste.Decimal.{
  Decimal, decimal, whole, add, sub, mul, div, abs, max_of, quantize,
}
use payroll_management_syste.Finance.Models.{MetricType}

-- `forecast_value`
unfoldable pub forecast_value : Decimal → Result Decimal
forecast_value d = quantize 4 d

abbrev pub Observation : Type 0
Observation = ℕ × Decimal

-- `sorted(observations, key=lambda item: item[0])`, which is stable.
unfoldable pub insert_observation : Observation → List Observation → List Observation
insert_observation o [] = o ∷ []
insert_observation o (p ∷ ps) =
    let rest = insert_observation o ps in if leb o.0 p.0 then o ∷ p ∷ ps else p ∷ rest

unfoldable pub sort_observations : List Observation → List Observation
sort_observations [] = []
sort_observations (o ∷ os) = insert_observation o (sort_observations os)

abbrev pub last_of {ℓ} : {A : Type ℓ} → A → List A → A
last_of x [] = x
last_of x (y ∷ ys) = last_of y ys

-- `sum(values, Decimal("0"))`
unfoldable pub sum_values : Decimal → List Decimal → Decimal
sum_values total [] = total
sum_values total (v ∷ vs) = sum_values (add total v) vs

-- `max(abs(value - mean) for value in values)`
unfoldable pub max_deviation : Decimal → Decimal → List Decimal → Decimal
max_deviation mean best [] = best
max_deviation mean best (v ∷ vs) = max_deviation mean (max_of best (abs (sub v mean))) vs

-- The whole part of a square root. The first argument is fuel: one for two binary digits.
unfoldable pub isqrt : ℕ → ℕ → ℕ
isqrt zero n = 0
isqrt (suc f) n = let r = 2 * isqrt f (n / 4) in if leb ((r + 1) * (r + 1)) n then r + 1 else r

-- `Decimal(step).sqrt()` for a step below 100: exact for a square, else rounded to 28 digits.
unfoldable pub sqrt_of : ℕ → Decimal
sqrt_of step =
    let exact = isqrt 4 step in
    let n = step * 10 ^ 54 in
    let root = isqrt 94 n in
    if exact * exact == step
    then whole exact
    else decimal (pos (if ltb (root * root + root) n then root + 1 else root)) 27

pub record ForecastRun : Type 0 where
  pub organization : ℕ
  pub metric_type : MetricType
  pub model_version : String
  pub source_data_start : ℕ
  pub source_data_end : ℕ

pub record ForecastPoint : Type 0 where
  pub forecast_date : ℕ
  pub predicted_value : Decimal
  pub confidence_low : Decimal
  pub confidence_high : Decimal

-- The trend that the points are read off.
pub record Trend : Type 0 where
  pub last_date : ℕ
  pub last_value : Decimal
  pub slope : Decimal
  pub deviation : Decimal

-- The body of the loop.
unfoldable pub point_at : Trend → ℕ → Result ForecastPoint
point_at t step = do
  let predicted = add t.last_value (mul t.slope (whole step))
  let uncertainty = mul t.deviation (sqrt_of step)
  value ← forecast_value predicted
  low ← forecast_value (sub predicted uncertainty)
  high ← forecast_value (add predicted uncertainty)
  ok (record {
    forecast_date = t.last_date + 30 * step;
    predicted_value = value;
    confidence_low = low;
    confidence_high = high;
  })

-- `for step in range(1, horizon + 1)`, with the steps that are left and the next one.
unfoldable pub points_from : Trend → ℕ → ℕ → Result (List ForecastPoint)
points_from t zero step = ok []
points_from t (suc left) step = do
  point ← point_at t step
  points ← points_from t left (step + 1)
  ok (point ∷ points)

-- The trend of sorted observations, of which `first` is the first.
unfoldable pub trend_of : Observation → List Observation → Result Trend
trend_of first others = do
  let values = map (λ (o : Observation). o.1) (first ∷ others)
  let last = last_of first others
  slope ← div (sub last.1 first.1) (whole (length others))
  mean ← div (sum_values (whole 0) values) (whole (length values))
  ok (record {
    last_date = last.0;
    last_value = last.1;
    slope = slope;
    deviation = max_deviation mean (abs (sub first.1 mean)) (map (λ (o : Observation). o.1) others);
  })

unfoldable pub predict_sorted :
    ℕ → MetricType → ℕ → List Observation → Result (ForecastRun × List ForecastPoint)
predict_sorted organization metric_type horizon [] =
    err (validation_error "at least two dated observations are required for a prediction")
predict_sorted organization metric_type horizon (first ∷ others) = do
  trend ← trend_of first others
  points ← points_from trend horizon 1
  ok (
    record {
      organization = organization;
      metric_type = metric_type;
      model_version = "linear-trend-v1";
      source_data_start = first.0;
      source_data_end = (last_of first others).0;
    },
    points,
  )

-- `create_prediction`: the run with its points, which one transaction stores.
unfoldable pub create_prediction :
    ℕ → MetricType → List Observation → ℕ → Result (ForecastRun × List ForecastPoint)
create_prediction organization metric_type observations horizon = do
  raise_if (ltb (length observations) 2)
      (validation_error "at least two dated observations are required for a prediction")
  raise_if (ltb horizon 1 || ltb 36 horizon)
      (validation_error "prediction horizon must be between 1 and 36 periods")
  predict_sorted organization metric_type horizon (sort_observations observations)
