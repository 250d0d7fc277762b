-- ===== src/Cdc/Manifest/Methods.antt =====
-- The lifecycle methods of `SqliteBatchManifest` and its queries.
use Prim.Native.String.{count, compare as compare_text}
use text.Mathlib.Text.{is_eq, is_lt}
use fintech_payments_data_pl.Prelude.{
  ℕ, ◌+◌, String, Bool, true, false, not, ◌&&◌, ◌||◌, Option, none, some, [], ◌∷◌, select, ok, pure,
  raise, ◌>>=◌, ◌>>◌, ◌==◌, ltb, leb, str_eq, if◌then◌else◌,
}
use fintech_payments_data_pl.Cdc.Models.{
  BatchStatus, serializing, uploading, uploaded, committed, failed,
}
use fintech_payments_data_pl.Cdc.Manifest.{
  BatchManifestRecord, bad_checksum, manifest_conflict, invalid_transition, Table, Action, require,
  transition, status_eq, safe_error, update_rows, assign_all, error_code, error_message,
  retry_count, checksum_sha256, object_uri, upload_started_at, uploaded_at, committed_at,
}

-- Equality of `str | None`
abbrev pub text_option_eq : Option String → Option String → Bool
text_option_eq none none = true
text_option_eq (some a) (some b) = str_eq a b
text_option_eq _ _ = false

-- The status sets of the early returns.
abbrev pub is_durable : BatchStatus → Bool
is_durable uploaded = true
is_durable committed = true
is_durable _ = false

abbrev pub is_past_uploading : BatchStatus → Bool
is_past_uploading uploading = true
is_past_uploading s = is_durable s

abbrev pub is_past_serializing : BatchStatus → Bool
is_past_serializing serializing = true
is_past_serializing s = is_past_uploading s

unfoldable pub mark_serializing : String → Action BatchManifestRecord
mark_serializing id = do
  current ← require id
  if is_past_serializing current.status then pure current else transition id serializing []

unfoldable pub mark_uploading : String → ℕ → Action BatchManifestRecord
mark_uploading id now = do
  current ← require id
  if is_past_uploading current.status
      then pure current
      else transition id uploading (upload_started_at now ∷ [])

-- The test of `mark_uploaded` on a row that is uploaded already.
unfoldable pub same_evidence : String → String → BatchManifestRecord → Bool
same_evidence checksum uri r =
    text_option_eq r.checksum_sha256 (some checksum) && text_option_eq r.object_uri (some uri)

unfoldable pub mark_uploaded : String → String → String → ℕ → Action BatchManifestRecord
mark_uploaded id checksum uri now = if not (count checksum == 64) then raise bad_checksum else do
  current ← require id
  if is_durable current.status
      then (if same_evidence checksum uri current then pure current else raise manifest_conflict)
      else transition id uploaded (
          checksum_sha256 (some checksum)
          ∷ object_uri (some uri)
          ∷ uploaded_at now
          ∷ error_code none
          ∷ error_message none
          ∷ [])

unfoldable pub mark_committed : String → ℕ → Action BatchManifestRecord
mark_committed id now = do
  current ← require id
  if status_eq current.status committed
      then pure current
      else transition id committed (committed_at now ∷ error_code none ∷ error_message none ∷ [])

-- Its `UPDATE` is guarded by the status that was read; the number of rows is not looked at.
unfoldable pub note_retryable_error : String → String → String → Action BatchManifestRecord
note_retryable_error id code message = do
  current ← require id
  (λ t. (
    ok tt,
    update_rows id current.status
        (assign_all (
          error_code (some code)
          ∷ error_message (some (safe_error message))
          ∷ retry_count (current.retry_count + 1)
          ∷ []))
        t,
  ))
  require id

unfoldable pub mark_failed : String → String → String → Action BatchManifestRecord
mark_failed id code message = do
  current ← require id
  if is_durable current.status
      then raise invalid_transition
      else if status_eq current.status failed
      then note_retryable_error id code message
      else transition id failed (
          error_code (some code)
          ∷ error_message (some (safe_error message))
          ∷ retry_count (current.retry_count + 1)
          ∷ [])

-- `ORDER BY topic, partition, offset_end` and `ORDER BY created_at, batch_id`
topic_order : BatchManifestRecord → BatchManifestRecord → Bool
topic_order a b =
    is_lt (compare_text a.topic b.topic)
    || (is_eq (compare_text a.topic b.topic)
        && (ltb a.partition b.partition
            || (a.partition == b.partition && leb a.offset_end b.offset_end)))

created_order : BatchManifestRecord → BatchManifestRecord → Bool
created_order a b =
    is_lt (compare_text a.created_at b.created_at)
    || (is_eq (compare_text a.created_at b.created_at)
        && not (is_lt (compare_text b.batch_id a.batch_id)))

insert_row :
    (BatchManifestRecord → BatchManifestRecord → Bool) → BatchManifestRecord → Table → Table
insert_row order r [] = r ∷ []
insert_row order r (x ∷ t) =
    let rest = insert_row order r t in if order r x then r ∷ x ∷ t else x ∷ rest

sort_rows : (BatchManifestRecord → BatchManifestRecord → Bool) → Table → Table
unfolding insert_row
sort_rows order [] = []
sort_rows order (r ∷ t) = insert_row order r (sort_rows order t)

unfoldable pub recoverable : String → Table → Table
unfolding sort_rows topic_order
recoverable consumer_group t =
    sort_rows topic_order
      (select (λ r. str_eq r.consumer_group consumer_group && is_durable r.status) t)

unfoldable pub list_all : Table → Table
unfolding sort_rows created_order
list_all t = sort_rows created_order t
