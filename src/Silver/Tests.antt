-- ===== src/Silver/Tests.antt =====
-- The theorems on Silver at concrete inputs.
use fintech_payments_data_pl.Prelude.{ℕ, ◌≡◌, refl, String, none, some, List, [], ◌∷◌, All, false}
use fintech_payments_data_pl.Prelude.Rows.{first_row}
use fintech_payments_data_pl.Prelude.Int.{pos}
use fintech_payments_data_pl.Silver.Models.{
  NormalizedCdcEvent, cdc, ProcessingRun, reading, completed,
}
use fintech_payments_data_pl.Silver.Deduplication.{deduplicate_events}
use fintech_payments_data_pl.Silver.Deduplication.Laws.{
  deduplicate_events-Partitions, events_of, Distinct, Explained,
}
use fintech_payments_data_pl.Silver.Manifest.{Registration, new_run, get}
use fintech_payments_data_pl.Silver.Manifest.Laws.{TableContinues}
use fintech_payments_data_pl.Silver.Manifest.History.{
  RunCall, registering, reading_call, failed_call, perform_all, perform_all-Continues,
  terminal_forever,
}
use fintech_payments_data_pl.Silver.References.{classify_unresolved_references}
use fintech_payments_data_pl.Silver.References.Laws.{
  Unresolveds, classify_unresolved_references-Unresolveds,
}
use fintech_payments_data_pl.Silver.Manifest.Queries.{Identity}
use mathlib.Core.List.{Perm}

abbrev change : String → ℕ → NormalizedCdcEvent
change id offset = record {
  event_id = id;
  entity_name = "customers";
  business_key = "c-1";
  operation = "u";
  is_snapshot = false;
  is_deleted = false;
  is_tombstone = false;
  before_json = none;
  after_json = some "{}";
  business_payload_json = none;
  source_lsn = some (pos 9);
  source_tx_id = none;
  source_ts = none;
  connector_ts = none;
  kafka_message_ts = none;
  kafka_topic = "cdc.customers";
  kafka_partition = 0;
  kafka_offset = offset;
  event_time = 5;
  ingested_at = 6;
  processed_at = 7;
  processing_run_id = "run-1";
  source_schema_version = "1";
  silver_schema_version = "1";
}

-- Out of order, with one offset twice and one id twice.
abbrev changes : List NormalizedCdcEvent
changes = change "b" 2 ∷ change "a" 1 ∷ change "c" 2 ∷ change "a" 3 ∷ []

deduplicate_events-Partitions_example :
    let o = deduplicate_events changes in
    Perm (events_of o) changes × Distinct o.accepted × All (Explained o.accepted) o.rejected
deduplicate_events-Partitions_example = deduplicate_events-Partitions changes

deduplicates : (deduplicate_events changes).accepted ≡ change "a" 1 ∷ change "b" 2 ∷ []
unfolding deduplicate_events
deduplicates = refl

abbrev registration : Registration
registration = record {
  run_id = "run-1";
  pipeline_name = "silver";
  source_type = cdc;
  entity_name = "customers";
  input_object_uri = "s3://bronze/1";
  input_checksum = "aa";
  code_version = "1";
  schema_version = "1";
  started_at = "2024-01-01T00:00:00Z";
}

abbrev completed_run : ProcessingRun
completed_run = record (new_run registration) {
  status = completed;
  completed_at = some "2024-01-01T00:01:00Z";
}

abbrev calls : List RunCall
calls =
    registering registration
    ∷ reading_call "run-1"
    ∷ failed_call "run-1" "ValueError" "late" "t"
    ∷ []

perform_all-Continues_example :
    TableContinues (completed_run ∷ []) (perform_all calls (completed_run ∷ []))
perform_all-Continues_example = perform_all-Continues calls (completed_run ∷ [])

terminal_forever_example : get "run-1" (perform_all calls (completed_run ∷ [])) ≡ some completed_run
unfolding get first_row
terminal_forever_example =
    terminal_forever calls (completed_run ∷ []) "run-1" completed_run refl refl

abbrev run_identity : Identity
run_identity = record {
  pipeline_name = "silver";
  input_checksum = "aa";
  code_version = "1";
  schema_version = "1";
}

abbrev reading_run : ProcessingRun
reading_run = record (new_run registration) { status = reading }

abbrev account_change : NormalizedCdcEvent
account_change = record (change "a" 1) { entity_name = "accounts" }

classify_unresolved_references-Unresolveds_example :
    Unresolveds account_change (("customer_id", some "c-9") ∷ []) (("customers", "c-1" ∷ []) ∷ []) (
      classify_unresolved_references account_change
        (("customer_id", some "c-9") ∷ [])
        (("customers", "c-1" ∷ []) ∷ [])
        8)
classify_unresolved_references-Unresolveds_example =
    classify_unresolved_references-Unresolveds account_change (("customer_id", some "c-9") ∷ [])
      (("customers", "c-1" ∷ []) ∷ []) 8
