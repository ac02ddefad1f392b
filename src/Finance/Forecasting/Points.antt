-- ===== src/Finance/Forecasting/Points.antt =====
-- The points of a prediction, and the square root that widens its ranges.
use native.Mathlib.Nat.{pow-suc}
use payroll_management_syste.Prelude.{
  Elem, ◌||◌, ltb, ap, ◌∙◌, refl, ◌≡◌, map, length, ◌∷◌, [], All, List, ℕ, zero, suc, ◌+◌, ◌*◌, ◌/◌,
  ◌^◌, ◌≤◌, ◌<◌, inl, inr, arith, leb, if◌then◌else◌, Bool-cases,
}
use payroll_management_syste.Finance.Forecasting.{
  trend_of, predict_sorted, create_prediction, forecast_value, sqrt_of, last_of, ForecastPoint,
  Trend, ForecastRun, sort_observations, points_from, point_at, Observation, isqrt,
}
use payroll_management_syste.Outcome.{
  raise_if-ok, Ensures-last, raise_if, ok, Ensures-elim, Ensures-bind, Ensures,
}
use payroll_management_syste.Decimal.{div, sub, whole, mul, add}
use payroll_management_syste.Finance.Models.{MetricType}
use payroll_management_syste.Finance.Forecasting.Sorted.{
  IsSorted, sort_observations-IsSorted, sorted-All, last_of-le, sorted-Elem, last_of-Elem, dates_of,
}

-- With one unit of fuel for two binary digits the root is the largest whose square fits.
isqrt_bounds :
    (f n : ℕ) → n < 4 ^ f → (isqrt f n * isqrt f n ≤ n) × (n < (isqrt f n + 1) * (isqrt f n + 1))
unfolding isqrt
isqrt_bounds zero n h = omega arith
isqrt_bounds (suc f) n h =
    let below : n / 4 < 4 ^ f = omega (arith, pow-suc 4 f) in
    let ih = isqrt_bounds f (n / 4) below in isqrt_step (isqrt f (n / 4)) n ih
  where
    isqrt_step :
        (r n : ℕ)
        → (r * r ≤ n / 4) × (n / 4 < (r + 1) * (r + 1))
        → let s = if leb ((2 * r + 1) * (2 * r + 1)) n then 2 * r + 1 else 2 * r in
          (s * s ≤ n) × (n < (s + 1) * (s + 1))
    isqrt_step r n h = elim (Bool-cases (leb ((2 * r + 1) * (2 * r + 1)) n)) [
      | inl t ↦ rw t (grind arith)
      | inr f ↦ rw f (grind arith)
    ]

-- The fuel of `sqrt_of` is enough for every step of a prediction.
root_bounds :
    (step : ℕ)
    → step ≤ 36
    → let n = step * 10 ^ 54 in
      (isqrt 94 n * isqrt 94 n ≤ n) × (n < (isqrt 94 n + 1) * (isqrt 94 n + 1))
root_bounds step h =
    let enough : step * 10 ^ 54 < 4 ^ 94 = omega arith in isqrt_bounds 94 (step * 10 ^ 54) enough

-- The dates of that many points from a step on.
abbrev pub dates_from : ℕ → ℕ → ℕ → List ℕ
dates_from last zero step = []
dates_from last (suc left) step = (last + 30 * step) ∷ dates_from last left (step + 1)

point_at-date :
    (t : Trend) (step : ℕ)
    → Ensures (λ p. p.forecast_date ≡ t.last_date + 30 * step) (point_at t step)
unfolding point_at
point_at-date t step =
    let predicted = add t.last_value (mul t.slope (whole step)) in
    let uncertainty = mul t.deviation (sqrt_of step) in
    let P = λ (p : ForecastPoint). p.forecast_date ≡ t.last_date + 30 * step in
    Ensures-bind P (forecast_value predicted) _ λ _ _.
      Ensures-bind P (forecast_value (sub predicted uncertainty)) _
        λ _ _. Ensures-bind P (forecast_value (add predicted uncertainty)) _ λ _ _. refl

points_from-dates :
    (t : Trend) (left step : ℕ)
    → Ensures
        (λ ps. map (λ (p : ForecastPoint). p.forecast_date) ps ≡ dates_from t.last_date left step)
        (points_from t left step)
unfolding points_from
points_from-dates t zero step = refl
points_from-dates t (suc left) step =
    let date = λ (p : ForecastPoint). p.forecast_date in
    let P = λ (ps : List ForecastPoint). map date ps ≡ dates_from t.last_date (suc left) step in
    Ensures-bind P (point_at t step) _ λ p made.
      Ensures-bind P (points_from t left (step + 1)) _ λ ps more.
        let first =
          Ensures-elim (λ p. p.forecast_date ≡ t.last_date + 30 * step) (point_at t step) p
            (point_at-date t step) made in
        let others =
          Ensures-elim (λ ps. map date ps ≡ dates_from t.last_date left (step + 1))
            (points_from t left (step + 1)) ps (points_from-dates t left (step + 1)) more in
        rw (first, others) refl

abbrev pub IsPrediction : List Observation → ℕ → ForecastRun × List ForecastPoint → Type 0
IsPrediction observations horizon (run, points) =
    (2 ≤ length observations)
    × (1 ≤ horizon)
    × (horizon ≤ 36)
    × All (λ (o : Observation). (run.source_data_start ≤ o.0) × (o.0 ≤ run.source_data_end))
        observations
    × Elem run.source_data_start (dates_of observations)
    × Elem run.source_data_end (dates_of observations)
    × (map (λ (p : ForecastPoint). p.forecast_date) points
        ≡ dates_from run.source_data_end horizon 1)

-- What the prediction of sorted observations has.
abbrev IsTrendRun : List Observation → ℕ → ForecastRun × List ForecastPoint → Type 0
IsTrendRun os horizon (run, points) =
    All (λ (o : Observation). (run.source_data_start ≤ o.0) × (o.0 ≤ run.source_data_end)) os
    × Elem run.source_data_start (dates_of os)
    × Elem run.source_data_end (dates_of os)
    × (map (λ (p : ForecastPoint). p.forecast_date) points
        ≡ dates_from run.source_data_end horizon 1)

trend_of-date :
    (first : Observation) (others : List Observation)
    → Ensures (λ (t : Trend). t.last_date ≡ (last_of first others).0) (trend_of first others)
unfolding trend_of
trend_of-date first others =
    let P = λ (t : Trend). t.last_date ≡ (last_of first others).0 in
    Ensures-bind P (div _ _) _ λ _ _. Ensures-bind P (div _ _) _ λ _ _. refl

within :
    (first : Observation) (others : List Observation)
    → IsSorted (first ∷ others)
    → All (λ (o : Observation). (first.0 ≤ o.0) × (o.0 ≤ (last_of first others).0)) (first ∷ others)
within first others (lower, sorted) =
    let upper = last_of-le first others (lower, sorted) in
    All-both (λ (o : Observation). first.0 ≤ o.0)
      (λ (o : Observation). o.0 ≤ (last_of first others).0) (first ∷ others) (omega arith, lower)
      upper
  where
    All-both :
        (P Q : Observation → Type 0) (os : List Observation)
        → All P os
        → All Q os
        → All (λ o. P o × Q o) os
    All-both P Q [] ps qs = tt
    All-both P Q (o ∷ os) (p, ps) (q, qs) = ((p, q), All-both P Q os ps qs)

predict_sorted-Ensures :
    (organization : ℕ) (metric_type : MetricType) (horizon : ℕ) (os : List Observation)
    → IsSorted os
    → Ensures (IsTrendRun os horizon) (predict_sorted organization metric_type horizon os)
unfolding predict_sorted
predict_sorted-Ensures organization metric_type horizon [] sorted = tt
predict_sorted-Ensures organization metric_type horizon (first ∷ others) sorted =
    let P = IsTrendRun (first ∷ others) horizon in
    let end = (last_of first others).0 in
    Ensures-bind P (trend_of first others) _ λ t found.
      Ensures-bind P (points_from t horizon 1) _ λ points made.
        let date : t.last_date ≡ end =
          Ensures-elim (λ (t : Trend). t.last_date ≡ end) (trend_of first others) t
            (trend_of-date first others) found in
        let dates =
          Ensures-elim
            (λ ps.
              map (λ (p : ForecastPoint). p.forecast_date) ps ≡ dates_from t.last_date horizon 1)
            (points_from t horizon 1) points (points_from-dates t horizon 1) made in
        (
          within first others sorted,
          inl refl,
          last_of-Elem first others,
          dates ∙ ap (λ d. dates_from d horizon 1) date,
        )

-- A prediction is made of two observations or more, for 1 to 36 periods. Its run names the earliest and
-- the latest of their dates, in whatever order they come, and its points are as many as the periods, the
-- first 30 days after that latest date and each 30 days after the one before.
pub create_prediction_dated :
    (organization : ℕ) (metric_type : MetricType) (observations : List Observation) (horizon : ℕ)
    (result : ForecastRun × List ForecastPoint)
    → create_prediction organization metric_type observations horizon ≡ ok result
    → IsPrediction observations horizon result
unfolding create_prediction
create_prediction_dated organization metric_type observations horizon result h =
    let P = IsPrediction observations horizon in
    let few = ltb (length observations) 2 in
    let beyond = ltb horizon 1 || ltb 36 horizon in
    let sorted = sort_observations observations in
    let run = predict_sorted organization metric_type horizon sorted in
    Ensures-elim P (create_prediction organization metric_type observations horizon) result
      (Ensures-bind P (raise_if few _) _ λ _ enough. Ensures-bind P (raise_if beyond _) _ λ _ near.
        Ensures-last P run λ made is.
          let (dated, starts, ends, dates) =
            Ensures-elim (IsTrendRun sorted horizon) run made
              (predict_sorted-Ensures organization metric_type horizon sorted
                (sort_observations-IsSorted observations))
              is in
          let e = raise_if-ok few _ enough in
          let n = raise_if-ok beyond _ near in
          (
            ground arith,
            ground arith,
            ground arith,
            sorted-All
                (λ (o : Observation).
                  (made.0.source_data_start ≤ o.0) × (o.0 ≤ made.0.source_data_end))
                observations dated,
            sorted-Elem observations _ starts,
            sorted-Elem observations _ ends,
            dates,
          ))
      h
