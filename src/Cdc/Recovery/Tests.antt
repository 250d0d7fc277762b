-- ===== src/Cdc/Recovery/Tests.antt =====
-- The theorems on the processor at concrete inputs.
use mathlib.Core.List.{Mem}
use fintech_payments_data_pl.Prelude.{
  String, ◌≡◌, refl, subst, true, none, some, List, [], ◌∷◌, ok, inl, arith,
}
use fintech_payments_data_pl.Cdc.Models.Batch.{CdcBatch, batch_of}
use fintech_payments_data_pl.Cdc.Tests.{event_at, plain}
use fintech_payments_data_pl.Prelude.Text.{str}
use fintech_payments_data_pl.Cdc.Models.{uploaded, committed}
use fintech_payments_data_pl.Cdc.Manifest.{
  BatchManifestRecord, register, select_row, describes, transition, apply_transition, row_count,
  update_rows, is_target, assign_all, require,
}
use fintech_payments_data_pl.Cdc.Manifest.Methods.{mark_committed}
use fintech_payments_data_pl.Cdc.Retry.{retry_call}
use fintech_payments_data_pl.Cdc.Retry.Laws.{IsPolicy}
use fintech_payments_data_pl.Cdc.Storage.{SerializedParquet, verify_batch, stat_batch, verify}
use fintech_payments_data_pl.Cdc.Storage.Keys.{build_cdc_object_key, safe, is_partition_value}
use fintech_payments_data_pl.Cdc.Recovery.{
  retrying, on_manifest, outside, inside, process_recorded, commit, Settings, Run,
  BatchProcessResult, process,
}
use fintech_payments_data_pl.Cdc.Recovery.Triples.{IsSafe}
use fintech_payments_data_pl.Cdc.Recovery.Restarts.{
  Call, processing, reconciling, perform_all, perform_all-IsSafe,
}
use fintech_payments_data_pl.Cdc.Recovery.Memory.{
  World, checksum, memory, memory-IsReliable, new_object, commit_of, Held,
}
use fintech_payments_data_pl.Cdc.Manifest.Backed.{IsBacked}
use fintech_payments_data_pl.Cdc.Manifest.Methods.{is_durable}
use fintech_payments_data_pl.Cdc.Recovery.Calls.{offset_of}
use fintech_payments_data_pl.Cdc.Recovery.Safety.{process-ok}

abbrev sorted_batch : CdcBatch
sorted_batch = batch_of plain (event_at 5 "2024-01-01") (event_at 6 "2024-01-01" ∷ [])

abbrev settings : Settings
settings = record {
  bronze_bucket = "bronze";
  consumer_group = "g";
  retry_policy = record { max_attempts = 2; initial_backoff = 1; maximum_backoff = 4 };
}

settings-IsPolicy : IsPolicy settings.retry_policy
settings-IsPolicy = record { attempts = omega arith; positive = omega arith; ordered = omega arith }

abbrev start : Run memory
start = record {
  table = [];
  world = record { objects = []; commits = []; commit_faults = 3 };
  serialized = none;
}

abbrev calls : List Call
calls =
    processing sorted_batch
    ∷ reconciling ((record { topic = "t"; partition = 0 }, 7) ∷ [])
    ∷ processing sorted_batch
    ∷ []

perform_all-IsSafe_example :
    IsSafe memory memory-IsReliable (perform_all memory settings calls start)
unfolding memory-IsReliable
perform_all-IsSafe_example =
    perform_all-IsSafe memory memory-IsReliable settings settings-IsPolicy calls start refl refl

abbrev literal_batch : CdcBatch
literal_batch = record sorted_batch {
  batch_id = "b";
  topic = "t";
  partition = 0;
  offset_start = 5;
  offset_end = 6;
  entity_name = "refunds";
}

abbrev key : String
key =
    "cdc/entity=refunds/event_date=2024-01-01/topic=t/partition=0/offset_start=5/offset_end=6/batch_id=b.parquet"

abbrev recorded_row : BatchManifestRecord
recorded_row = record {
  batch_id = "b";
  consumer_group = "g";
  topic = "t";
  partition = 0;
  offset_start = 5;
  offset_end = 6;
  status = uploaded;
  record_count = 2;
  schema_version = "1";
  checksum_sha256 = some checksum;
  object_uri = some key;
  created_at = "2024-01-01T00:00:00Z";
  upload_started_at = some 2;
  uploaded_at = some 3;
  committed_at = none;
  error_code = none;
  error_message = none;
  retry_count = 0;
}

abbrev parquet : SerializedParquet
parquet = record { path = "/tmp/p"; checksum_sha256 = checksum; size_bytes = 10 }

-- The upload is recorded, the offset is not committed, and the first commit fails.
abbrev interrupted_world : World
interrupted_world = record {
  objects = new_object "bronze" key parquet "parquet" ∷ [];
  commits = [];
  commit_faults = 1;
}

abbrev HeldNow : String → String → Type 0
HeldNow uri sum = Held interrupted_world uri sum

abbrev interrupted : Run memory
interrupted = record { table = recorded_row ∷ []; world = interrupted_world; serialized = none }

abbrev replay : BatchProcessResult
replay = record {
  batch_id = "b";
  object_uri = key;
  checksum_sha256 = checksum;
  committed_offset = 7;
  replayed = true;
}

abbrev repaired : Run memory
repaired = record {
  table = record recorded_row { status = committed; committed_at = some 7 } ∷ [];
  world = record {
    objects = new_object "bronze" key parquet "parquet" ∷ [];
    commits = commit_of "t" 0 7 ∷ [];
    commit_faults = 0;
  };
  serialized = none;
}

process-interrupted : process memory settings literal_batch interrupted ≡ (ok replay, repaired)
unfolding process retrying retry_call on_manifest outside inside register select_row describes
    process_recorded verify_batch stat_batch build_cdc_object_key safe is_partition_value str commit
    mark_committed transition apply_transition row_count update_rows is_target assign_all require
    verify
process-interrupted = refl

-- A table of one row.
only_row : (id : String) (r x : BatchManifestRecord) → select_row id (r ∷ []) ≡ some x → r ≡ x
unfolding select_row
only_row id r x h = ground arith

interrupted-IsSafe : IsSafe memory memory-IsReliable interrupted
unfolding memory-IsReliable
interrupted-IsSafe = record {
  backed = λ id r found.
      subst (IsBacked HeldNow) (only_row id recorded_row r found)
        (λ d. (key, checksum, refl, refl, inl (refl, refl)));
  covered = tt;
}

process-ok_example :
    ((r : BatchManifestRecord) × (select_row "b" repaired.table ≡ some r)
      × (is_durable r.status ≡ true)
      × (r.object_uri ≡ some key)
      × (r.checksum_sha256 ≡ some checksum))
    × memory-IsReliable.Held repaired.world key checksum
    × Mem (offset_of literal_batch) (memory-IsReliable.commits repaired.world)
process-ok_example =
    process-ok memory memory-IsReliable settings settings-IsPolicy literal_batch interrupted replay
      repaired interrupted-IsSafe process-interrupted
