-- ===== src/Silver/Models.antt =====
-- src/processing/silver/models.py: processing state and normalized records. An instant is its number
-- of microseconds since 1970, but for the times of a run, which are the ISO texts that its row holds.
use fintech_payments_data_pl.Prelude.{ℕ, String, Bool, Option, List}
use fintech_payments_data_pl.Prelude.Int.{ℤ}

pub data ProcessingStatus : Type 0 where
  discovered reading validating transforming writing : ProcessingStatus
  completed failed quarantined : ProcessingStatus

pub data SourceType : Type 0 where
  cdc settlement : SourceType

pub data OutputType : Type 0 where
  history latest_all current events settlements rejections unresolved_references : OutputType

pub data QualityCode : Type 0 where
  invalid_bronze_schema invalid_json missing_business_key invalid_decimal : QualityCode
  invalid_timestamp unsupported_operation duplicate_event duplicate_coordinate : QualityCode
  out_of_order_event invalid_reference schema_version_unsupported : QualityCode

pub record NormalizedCdcEvent : Type 0 where
  pub event_id : String
  pub entity_name : String
  pub business_key : String
  pub operation : String
  pub is_snapshot : Bool
  pub is_deleted : Bool
  pub is_tombstone : Bool
  pub before_json : Option String
  pub after_json : Option String
  pub business_payload_json : Option String
  pub source_lsn : Option ℤ
  pub source_tx_id : Option ℤ
  pub source_ts : Option ℕ
  pub connector_ts : Option ℕ
  pub kafka_message_ts : Option ℕ
  pub kafka_topic : String
  pub kafka_partition : ℕ
  pub kafka_offset : ℕ
  pub event_time : ℕ
  pub ingested_at : ℕ
  pub processed_at : ℕ
  pub processing_run_id : String
  pub source_schema_version : String
  pub silver_schema_version : String

-- `coordinate`
abbrev pub coordinate : NormalizedCdcEvent → String × ℕ × ℕ
coordinate e = (e.kafka_topic, e.kafka_partition, e.kafka_offset)

pub record InputObject : Type 0 where
  pub uri : String
  pub bucket : String
  pub object_key : String
  pub checksum_sha256 : String
  pub size_bytes : ℕ
  pub metadata : List (String × String)

pub record QualityRejection : Type 0 where
  pub source_object_uri : String
  pub source_event_id : Option String
  pub entity_name : String
  pub business_key : Option String
  pub error_code : String
  pub error_message : String
  pub raw_reference : String
  pub processing_run_id : String
  pub rejected_at : ℕ

pub record UnresolvedReference : Type 0 where
  pub entity_name : String
  pub business_key : String
  pub reference_entity : String
  pub reference_key : String
  pub reference_field : String
  pub classification : String
  pub source_event_id : String
  pub processing_run_id : String
  pub observed_at : ℕ

pub record SilverOutput : Type 0 where
  pub output_type : OutputType
  pub object_uri : String
  pub checksum_sha256 : String
  pub record_count : ℕ

pub record ProcessingRun : Type 0 where
  pub run_id : String
  pub pipeline_name : String
  pub source_type : SourceType
  pub entity_name : String
  pub input_object_uri : String
  pub input_checksum : String
  pub input_record_count : ℕ
  pub status : ProcessingStatus
  pub started_at : String
  pub completed_at : Option String
  pub output_object_uris : List String
  pub outputs : List SilverOutput
  pub output_record_count : ℕ
  pub rejected_record_count : ℕ
  pub error_code : Option String
  pub error_message : Option String
  pub code_version : String
  pub schema_version : String
