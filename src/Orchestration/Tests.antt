-- ===== src/Orchestration/Tests.antt =====
-- The theorems on the quality gates at concrete inputs, with percentages for the floats.
use Prim.Native.Nat.{◌/◌}
use fintech_payments_data_pl.Prelude.{ℕ, ◌*◌, Bool, some, List, [], ◌∷◌, leb, ltb}
use fintech_payments_data_pl.Prelude.Int.{ℤ, pos}
use fintech_payments_data_pl.Orchestration.Models.{
  QualityClassification, QualityResult, pass, warn, number,
}
use fintech_payments_data_pl.Orchestration.Quality.{pipeline_status_from_quality}
use fintech_payments_data_pl.Orchestration.Quality.Laws.{
  Judges, pipeline_status_from_quality-Judges,
}

abbrev percent : ℤ → ℤ → ℕ
percent (pos a) (pos b) = a * 100 / b
percent _ _ = 0

abbrev more_than : ℕ → ℕ → Bool
more_than a b = ltb b a

abbrev at_least : ℕ → ℕ → Bool
at_least a b = leb b a

abbrev rated : ℕ → QualityClassification → QualityResult ℕ
rated rejected c = record {
  rule_name = "rejection_rate";
  classification = c;
  observed_value = some rejected;
  warn_threshold = some 5;
  fail_threshold = some 20;
  details = ("records_read", number (pos 100)) ∷ ("records_rejected", number (pos rejected)) ∷ [];
}

abbrev results : List (QualityResult ℕ)
results = rated 1 pass ∷ rated 7 warn ∷ []

pipeline_status_from_quality-Judges_example : Judges results (pipeline_status_from_quality results)
pipeline_status_from_quality-Judges_example = pipeline_status_from_quality-Judges results
