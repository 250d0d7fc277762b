-- ===== src/Cdc/LifecycleTests.antt =====
-- The theorems on the batch manifest and the retries at concrete inputs.
use fintech_payments_data_pl.Prelude.{
  ℕ, ◌+◌, ◌≤◌, ◌≡◌, refl, String, true, none, some, List, [], ◌∷◌, ok, err, Exec, arith,
  if◌then◌else◌, ltb,
}
use fintech_payments_data_pl.Cdc.Models.{uploaded, uploading}
use fintech_payments_data_pl.Cdc.Models.Batch.{CdcBatch}
use fintech_payments_data_pl.Cdc.Tests.{event_at}
use fintech_payments_data_pl.Cdc.Manifest.{
  BatchManifestRecord, select_row, register, new_row, describes, violates, require, transition,
  apply_transition, update_rows, row_count, is_target, assign_all,
}
use fintech_payments_data_pl.Cdc.Manifest.Methods.{is_durable, mark_uploaded}
use fintech_payments_data_pl.Cdc.Manifest.Results.{mark_uploaded-ok}
use fintech_payments_data_pl.Cdc.Manifest.Registration.{IsRowOf, Added, register-ok}
use fintech_payments_data_pl.Cdc.Manifest.History.{
  ManifestCall, uploaded_call, failed_call, committed_call, perform_all, perform_all-Moves, AllMove,
  durable_forever,
}
use fintech_payments_data_pl.Cdc.Retry.{
  RetryPolicy, Raised, timeout, retry_call, retry_exhausted, is_retryable,
}
use fintech_payments_data_pl.Cdc.Retry.Laws.{
  IsPolicy, retry_call-ok, retry_call-cost, retry_call-exhausts,
}

abbrev checksum : String
checksum = "0123456789abcdef0123456789abcdef0123456789abcdef0123456789abcdef"

abbrev uploading_row : BatchManifestRecord
uploading_row = record {
  batch_id = "b1";
  consumer_group = "g";
  topic = "t";
  partition = 0;
  offset_start = 5;
  offset_end = 6;
  status = uploading;
  record_count = 2;
  schema_version = "1";
  checksum_sha256 = none;
  object_uri = none;
  created_at = "2024-01-01T00:00:00Z";
  upload_started_at = some 2;
  uploaded_at = none;
  committed_at = none;
  error_code = none;
  error_message = none;
  retry_count = 0;
}

abbrev uploaded_row : BatchManifestRecord
uploaded_row = record uploading_row {
  status = uploaded;
  checksum_sha256 = some checksum;
  object_uri = some "s3://b/1";
  uploaded_at = some 3;
}

abbrev batch_calls : List ManifestCall
batch_calls =
    failed_call "b1" "Timeout" "late"
    ∷ uploaded_call "b1" checksum "s3://b/2" 9
    ∷ committed_call "b1" 10
    ∷ []

perform_all-Moves_example : AllMove batch_calls (uploaded_row ∷ [])
perform_all-Moves_example = perform_all-Moves batch_calls (uploaded_row ∷ [])

durable_forever_example :
    (r : BatchManifestRecord) × (select_row "b1" (perform_all batch_calls (uploaded_row ∷ []))
      ≡ some r)
    × (is_durable r.status ≡ true)
    × (r.checksum_sha256 ≡ some checksum)
    × (r.object_uri ≡ some "s3://b/1")
unfolding select_row
durable_forever_example =
    durable_forever batch_calls (uploaded_row ∷ []) "b1" uploaded_row refl refl

uploads :
    mark_uploaded "b1" checksum "s3://b/1" 3 (uploading_row ∷ [])
    ≡ (ok uploaded_row, uploaded_row ∷ [])
unfolding mark_uploaded require select_row transition apply_transition update_rows row_count
    is_target assign_all
uploads = refl

mark_uploaded-ok_example :
    (select_row "b1" (uploaded_row ∷ []) ≡ some uploaded_row)
    × (is_durable uploaded_row.status ≡ true)
    × (uploaded_row.checksum_sha256 ≡ some checksum)
    × (uploaded_row.object_uri ≡ some "s3://b/1")
mark_uploaded-ok_example =
    mark_uploaded-ok "b1" checksum "s3://b/1" 3 (uploading_row ∷ []) uploaded_row
      (uploaded_row ∷ []) uploads

abbrev small_batch : CdcBatch
small_batch = record {
  batch_id = "b1";
  topic = "t";
  partition = 0;
  entity_name = "refunds";
  offset_start = 5;
  offset_end = 6;
  event_date = "d";
  schema_version = "1";
  events = event_at 5 "d" ∷ event_at 6 "d" ∷ [];
}

registers :
    register small_batch "g" "t" []
    ≡ (ok (new_row small_batch "g" "t"), new_row small_batch "g" "t" ∷ [])
unfolding register select_row violates describes new_row
registers = refl

register-ok_example :
    (select_row "b1" (new_row small_batch "g" "t" ∷ []) ≡ some (new_row small_batch "g" "t"))
    × IsRowOf small_batch "g" (new_row small_batch "g" "t")
    × Added "b1" (new_row small_batch "g" "t") [] (new_row small_batch "g" "t" ∷ [])
register-ok_example =
    register-ok small_batch "g" "t" [] (new_row small_batch "g" "t")
      (new_row small_batch "g" "t" ∷ []) registers

abbrev policy : RetryPolicy
policy = record { max_attempts = 3; initial_backoff = 2; maximum_backoff = 5 }

policy-IsPolicy : IsPolicy policy
policy-IsPolicy = record { attempts = omega arith; positive = omega arith; ordered = omega arith }

-- The state counts the attempts; sleeping leaves it.
abbrev asleep : ℕ → ℕ → ℕ
asleep d s = s

-- Two timeouts, and then a value.
abbrev third_time : Exec Raised ℕ ℕ
third_time s = (if ltb s 2 then err timeout else ok 7, s + 1)

abbrev never : Exec Raised ℕ ℕ
never s = (err timeout, s + 1)

returns_third : retry_call asleep policy third_time 0 ≡ (ok 7, 3)
unfolding retry_call
returns_third = refl

abbrev Anything : ℕ → Type 0
Anything s = 0 ≤ s

retry_call-ok_example : (s : ℕ) × Anything s × (third_time s ≡ (ok 7, 3))
retry_call-ok_example =
    retry_call-ok asleep policy third_time Anything 0 7 3 (λ t h. omega arith) (λ d t h. h)
      (omega arith) returns_third

retry_call-cost_example : (retry_call asleep policy never 0).1 ≤ 0 + 3
retry_call-cost_example =
    retry_call-cost asleep policy never (λ s. s) 0 (λ t. omega arith) (λ d t. omega arith)

retry_call-exhausts_example : (retry_call asleep policy never 0).0 ≡ err (retry_exhausted 3)
retry_call-exhausts_example =
    retry_call-exhausts asleep policy never 0 policy-IsPolicy
      λ t. (timeout, refl, unfold is_retryable in refl)
