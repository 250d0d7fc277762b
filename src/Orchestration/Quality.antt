-- ===== src/Orchestration/Quality.antt =====
-- src/orchestration/quality.py: the quality gates. Python's floats, their comparisons and the
-- division of two integers are parameters.
pub mod Laws
use fintech_payments_data_pl.Prelude.{
  zero, suc, String, Bool, true, false, ◌||◌, Option, none, some, List, [], ◌∷◌, Result, ok, err,
  if◌then◌else◌,
}
use fintech_payments_data_pl.Prelude.Int.{ℤ, pos, negsuc}
use fintech_payments_data_pl.Prelude.Dict.{Dict}
use fintech_payments_data_pl.Orchestration.Models.{
  QualityClassification, pass, warn, fail, Detail, number, QualityResult,
}

-- The two `ValueError`s.
pub data QualityError : Type 0 where
  thresholds_crossed negative_count : QualityError

is_negative : ℤ → Bool
is_negative (pos n) = false
is_negative (negsuc n) = true

-- `max(n, 1)`
unfoldable pub at_least_one : ℤ → ℤ
at_least_one (pos zero) = pos 1
at_least_one (pos (suc n)) = pos (suc n)
at_least_one (negsuc n) = pos 1

module _ {Float : Type 0} (greater at_least : Float → Float → Bool) (divide : ℤ → ℤ → Float) where
  unfoldable pub classify : Float → Float → Float → QualityClassification
  classify observed warn_at fail_at =
      if at_least observed fail_at then fail else if at_least observed warn_at then warn else pass

  -- `details or {}`
  or_empty : Option (Dict String Detail) → Dict String Detail
  or_empty none = []
  or_empty (some d) = d

  unfoldable pub classify_threshold :
      String
      → Float
      → Float
      → Float
      → Option (Dict String Detail)
      → Result QualityError (QualityResult Float)
  unfolding or_empty
  classify_threshold rule observed warn_at fail_at details =
      if greater warn_at fail_at
      then err thresholds_crossed
      else ok (record {
        rule_name = rule;
        classification = classify observed warn_at fail_at;
        observed_value = some observed;
        warn_threshold = some warn_at;
        fail_threshold = some fail_at;
        details = or_empty details;
      })

  unfoldable pub rejection_rate_result :
      ℤ → ℤ → Float → Float → Result QualityError (QualityResult Float)
  unfolding is_negative at_least_one
  rejection_rate_result records_read records_rejected warn_rate fail_rate =
      if is_negative records_read || is_negative records_rejected
      then err negative_count
      else classify_threshold "rejection_rate" (divide records_rejected (at_least_one records_read))
          warn_rate fail_rate
          (some (
            ("records_read", number records_read)
            ∷ ("records_rejected", number records_rejected)
            ∷ []))

is_class : QualityClassification → QualityClassification → Bool
is_class pass pass = true
is_class warn warn = true
is_class fail fail = true
is_class _ _ = false

module _ {Float : Type 0} where
  unfoldable pub has_class : QualityClassification → List (QualityResult Float) → Bool
  unfolding is_class
  has_class c [] = false
  has_class c (r ∷ rs) = is_class r.classification c || has_class c rs

  unfoldable pub pipeline_status_from_quality : List (QualityResult Float) → String
  pipeline_status_from_quality results =
      if has_class fail results
      then "FAILED"
      else if has_class warn results
      then "PARTIAL"
      else "SUCCEEDED"
