-- ===== src/Orchestration/Models.antt =====
-- src/orchestration/models.py: the records that tasks and the control store share. A UUID and a date
-- are their texts. `Float` is the type of Python's floats.
use fintech_payments_data_pl.Prelude.{ℕ, String, Bool, Option, List}
use fintech_payments_data_pl.Prelude.Int.{ℤ}
use fintech_payments_data_pl.Prelude.Dict.{Dict}

pub data PipelineStatus : Type 0 where
  queued running succeeded failed partial skipped : PipelineStatus

pub data PipelineRunType : Type 0 where
  scheduled manual backfill recovery : PipelineRunType

pub data QualityClassification : Type 0 where
  pass warn fail : QualityClassification

-- A small value of `metadata` or `details`.
pub data Detail : Type 0 where
  number : ℤ → Detail
  text : String → Detail

pub record TaskResult : Type 0 where
  pub status : PipelineStatus
  pub records_read : ℕ
  pub records_written : ℕ
  pub records_rejected : ℕ
  pub input_assets : List String
  pub output_assets : List String
  pub metadata : Option (Dict String Detail)

pub record QualityResult (Float : Type 0) : Type 0 where
  pub rule_name : String
  pub classification : QualityClassification
  pub observed_value : Option Float
  pub warn_threshold : Option Float
  pub fail_threshold : Option Float
  pub details : Dict String Detail

pub record BackfillRequest : Type 0 where
  pub request_id : String
  pub source_type : String
  pub entity_name : Option String
  pub input_prefix : Option String
  pub from_date : Option String
  pub to_date : Option String
  pub force_reprocess : Bool
  pub dry_run : Bool
