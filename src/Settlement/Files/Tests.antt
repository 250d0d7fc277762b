-- ===== src/Settlement/Files/Tests.antt =====
-- The theorems on the validation of settlement files at a file of two rows.
use fintech_payments_data_pl.Prelude.{
  String, ◌≡◌, refl, Bool, true, false, Option, none, some, List, [], ◌∷◌, ok, str_eq,
  if◌then◌else◌, All, map, length, inl, inr,
}
use fintech_payments_data_pl.Prelude.Dict.{get}
use fintech_payments_data_pl.Prelude.Int.{pos, negsuc}
use fintech_payments_data_pl.Settlement.Models.{
  SettlementRecord, RejectedRecord, FilenameMetadata, FileValidationResult,
}
use fintech_payments_data_pl.Settlement.Contracts.{
  FieldContract, SettlementContract, field_names, field,
}
use fintech_payments_data_pl.Settlement.Decimals.{
  Parsed, finite, in_cents, precision_of, digit_count, quantize, fitting, cents,
}
use fintech_payments_data_pl.Settlement.Validation.{Reader, Raw, aware, validate_row, text}
use fintech_payments_data_pl.Settlement.Files.{
  contents, Source, validate_settlement_file, validate_rows, raw_record,
}
use fintech_payments_data_pl.Settlement.Files.Laws.{Merges, Fresh, IsSound, IsStrict}
use fintech_payments_data_pl.Settlement.Files.Results.{
  validate_settlement_file-Merges, validate_settlement_file-IsSound, validate_settlement_file-Fresh,
}

-- The texts of the amounts in the file.
abbrev decimal_of : String → Option Parsed
decimal_of s =
    if str_eq s "100.00"
    then some (finite false 10000 (negsuc 1))
    else if str_eq s "1.5"
    then some (finite false 15 (negsuc 0))
    else if str_eq s "98.50"
    then some (finite false 9850 (negsuc 1))
    else none

abbrev reader : Reader
reader = record {
  strip = λ s. s;
  matches = λ p s. true;
  date_of = λ s. some s;
  uuid_of = λ s. some s;
  timestamp_of = λ s. some (aware s);
  decimal_of = decimal_of;
}

abbrev text_field : String → Bool → FieldContract
text_field name nullable = record {
  name = name;
  data_type = "string";
  required = true;
  nullable = nullable;
  precision = none;
  scale = none;
  pattern = none;
  max_length = none;
  allowed_values = "SETTLED" ∷ [];
  timezone_required = false;
}

abbrev amount_field : String → FieldContract
amount_field name = record (text_field name false) { precision = some 18; scale = some 2 }

abbrev contract : SettlementContract
contract = record {
  name = "settlement";
  schema_version = "v1";
  contract_version = "1";
  owner = "o";
  source_owner = "s";
  classification = "c";
  encoding = "utf-8";
  delimiter = ",";
  naming_convention = "n";
  naming_pattern = "p";
  timestamp_convention = "t";
  business_key = [];
  fields =
      text_field "partner_id" false
      ∷ text_field "settlement_date" false
      ∷ text_field "settlement_reference" false
      ∷ text_field "partner_transaction_reference" false
      ∷ text_field "internal_transaction_id" true
      ∷ text_field "transaction_timestamp" false
      ∷ amount_field "amount"
      ∷ text_field "currency" false
      ∷ text_field "settlement_status" false
      ∷ amount_field "fee_amount"
      ∷ amount_field "net_amount"
      ∷ [];
}

abbrev file_name : FilenameMetadata
file_name = record {
  partner_id = "p1";
  settlement_date = "2024-01-01";
  sequence = 1;
  file_name = "f";
}

abbrev source : Source
source = record { file_name = "f"; rejected_at = "now"; ingestion_run_id = "run" }

abbrev good_row : Raw
good_row =
    ("partner_id", some "p1")
    ∷ ("settlement_date", some "2024-01-01")
    ∷ ("settlement_reference", some "r1")
    ∷ ("partner_transaction_reference", some "t1")
    ∷ ("internal_transaction_id", some "")
    ∷ ("transaction_timestamp", some "2024-01-01T00:00:00Z")
    ∷ ("amount", some "100.00")
    ∷ ("currency", some "EUR")
    ∷ ("settlement_status", some "SETTLED")
    ∷ ("fee_amount", some "1.5")
    ∷ ("net_amount", some "98.50")
    ∷ []

abbrev good_record : SettlementRecord
good_record = record {
  partner_id = "p1";
  settlement_date = "2024-01-01";
  settlement_reference = "r1";
  partner_transaction_reference = "t1";
  internal_transaction_id = none;
  transaction_timestamp = "2024-01-01T00:00:00Z";
  amount = in_cents (pos 10000);
  currency = "EUR";
  settlement_status = "SETTLED";
  fee_amount = in_cents (pos 150);
  net_amount = in_cents (pos 9850);
  source_row_number = 2;
}

abbrev duplicate : RejectedRecord
duplicate = record {
  source_file = "f";
  source_row_number = 3;
  raw_record = good_row;
  error_code = "DUPLICATE_ROW";
  error_message = "Identical row already appeared in file";
  rejected_at = "now";
  ingestion_run_id = "run";
}

abbrev outcome : FileValidationResult
outcome = record {
  file_issues = [];
  accepted_records = good_record ∷ [];
  rejected_records = duplicate ∷ [];
  record_count = 2;
}

abbrev header : List String
header = map (λ (f : FieldContract). f.name) contract.fields

abbrev two_rows : List Raw
two_rows = good_row ∷ good_row ∷ []

validated :
    validate_settlement_file reader contract file_name source (contents header two_rows)
    ≡ ok outcome
unfolding validate_settlement_file field_names validate_rows validate_row get raw_record text field
    precision_of digit_count quantize fitting cents
validated = refl

contract-IsStrict : IsStrict contract
contract-IsStrict = (
  inl (refl, refl, refl),
  inr (inl (refl, refl, refl)),
  inr (inr (inl (refl, refl, refl))),
  inr (inr (inr (inl (refl, refl, refl)))),
  inr (inr (inr (inr (inr (inl (refl, refl, refl)))))),
  inr (inr (inr (inr (inr (inr (inl (refl, refl, refl))))))),
  inr (inr (inr (inr (inr (inr (inr (inl (refl, refl, refl)))))))),
  inr (inr (inr (inr (inr (inr (inr (inr (inl (refl, refl, refl))))))))),
  inr (inr (inr (inr (inr (inr (inr (inr (inr (inl (refl, refl, refl)))))))))),
  inr (inr (inr (inr (inr (inr (inr (inr (inr (inr (inl (refl, refl, refl))))))))))),
)

validate_settlement_file-Merges_example :
    Merges (2 ∷ []) (3 ∷ []) (2 ∷ 3 ∷ []) × (outcome.record_count ≡ length two_rows)
validate_settlement_file-Merges_example =
    validate_settlement_file-Merges reader contract file_name source header two_rows outcome
      contract-IsStrict validated refl

validate_settlement_file-IsSound_example :
    All (IsSound reader contract file_name source) outcome.accepted_records
validate_settlement_file-IsSound_example =
    validate_settlement_file-IsSound reader contract file_name source (contents header two_rows)
      outcome validated

validate_settlement_file-Fresh_example : Fresh [] ("r1" ∷ [])
validate_settlement_file-Fresh_example =
    validate_settlement_file-Fresh reader contract file_name source (contents header two_rows)
      outcome validated
