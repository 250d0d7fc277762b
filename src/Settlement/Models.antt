-- ===== src/Settlement/Models.antt =====
-- src/ingestion/batch/models.py: the records of the settlement file ingestion. Dates, times and
-- UUIDs are their texts; a Decimal is its coefficient and its exponent.
use fintech_payments_data_pl.Prelude.{ℕ, String, Bool, true, false, Option, List, [], ◌∷◌}
use fintech_payments_data_pl.Prelude.Int.{ℤ}
use fintech_payments_data_pl.Prelude.Dict.{Dict}

pub data ManifestStatus : Type 0 where
  discovered validating validated processing processed quarantined failed : ManifestStatus

pub data DuplicateKind : Type 0 where
  new_file same_name_changed_content : DuplicateKind
  same_name_same_content different_name_same_content : DuplicateKind

pub record FilenameMetadata : Type 0 where
  pub partner_id : String
  pub settlement_date : String
  pub sequence : ℕ
  pub file_name : String

-- coefficient * 10 ^ exponent
pub record Decimal : Type 0 where
  pub coefficient : ℤ
  pub exponent : ℤ

pub record SettlementRecord : Type 0 where
  pub partner_id : String
  pub settlement_date : String
  pub settlement_reference : String
  pub partner_transaction_reference : String
  pub internal_transaction_id : Option String
  pub transaction_timestamp : String
  pub amount : Decimal
  pub currency : String
  pub settlement_status : String
  pub fee_amount : Decimal
  pub net_amount : Decimal
  pub source_row_number : ℕ

pub record ValidationIssue : Type 0 where
  pub code : String
  pub message : String

pub record RejectedRecord : Type 0 where
  pub source_file : String
  pub source_row_number : ℕ
  pub raw_record : Dict String (Option String)
  pub error_code : String
  pub error_message : String
  pub rejected_at : String
  pub ingestion_run_id : String

pub record FileValidationResult : Type 0 where
  pub file_issues : List ValidationIssue
  pub accepted_records : List SettlementRecord
  pub rejected_records : List RejectedRecord
  pub record_count : ℕ

no_issues : List ValidationIssue → Bool
no_issues [] = true
no_issues (i ∷ is) = false

unfoldable pub file_is_valid : FileValidationResult → Bool
unfolding no_issues
file_is_valid r = no_issues r.file_issues

pub record ManifestRecord : Type 0 where
  pub file_id : String
  pub source_name : String
  pub partner_id : String
  pub file_name : String
  pub file_path : String
  pub file_size_bytes : ℕ
  pub checksum_sha256 : String
  pub schema_version : String
  pub settlement_date : Option String
  pub discovered_at : String
  pub processing_started_at : Option String
  pub processed_at : Option String
  pub status : ManifestStatus
  pub record_count : ℕ
  pub accepted_count : ℕ
  pub rejected_count : ℕ
  pub error_code : Option String
  pub error_message : Option String
  pub bronze_path : Option String
  pub quarantine_path : Option String
  pub ingestion_run_id : String
