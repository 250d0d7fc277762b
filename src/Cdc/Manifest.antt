-- ===== src/Cdc/Manifest.antt =====
-- src/ingestion/cdc_consumer/manifest.py: the SQLite control table of the micro-batches. A method
-- is an action on the table's rows; an exception rolls its session back. `now` is what
-- `datetime.now(UTC)` reads, a number of microseconds; of `created_at`, by which rows are ordered, it is
-- the stored text.
pub mod Methods
pub mod Progress
pub mod Safe
pub mod Results
pub mod Registration
pub mod History
pub mod Backed
use fintech_payments_data_pl.Prelude.{
  ℕ, zero, suc, ◌+◌, String, Bool, true, false, not, ◌&&◌, ◌||◌, Option, none, some, List, [], ◌∷◌,
  ◌++◌, Result, ok, err, Exec, raise, ◌>>=◌, ◌>>◌, ◌==◌, ltb, leb, str_eq, if◌then◌else◌,
}
use fintech_payments_data_pl.Prelude.Text.{replace_breaks, prefix}
use fintech_payments_data_pl.Cdc.Models.{
  BatchStatus, collecting, serializing, uploading, uploaded, committed, failed,
}
use fintech_payments_data_pl.Cdc.Models.Batch.{CdcBatch, record_count}

pub record BatchManifestRecord : Type 0 where
  pub batch_id : String
  pub consumer_group : String
  pub topic : String
  pub partition : ℕ
  pub offset_start : ℕ
  pub offset_end : ℕ
  pub status : BatchStatus
  pub record_count : ℕ
  pub schema_version : String
  pub checksum_sha256 : Option String
  pub object_uri : Option String
  pub created_at : String
  pub upload_started_at : Option ℕ
  pub uploaded_at : Option ℕ
  pub committed_at : Option ℕ
  pub error_code : Option String
  pub error_message : Option String
  pub retry_count : ℕ

-- `ManifestError`, its subclasses and the two faults that it reports
pub data ManifestError : Type 0 where
  unknown_batch bad_checksum concurrent_change : ManifestError
  manifest_conflict invalid_transition assertion_failed : ManifestError

abbrev pub Table : Type 0
Table = List BatchManifestRecord

abbrev pub Action : Type 0 → Type 0
Action A = Exec ManifestError Table A

-- `_ALLOWED_TRANSITIONS`
abbrev pub allowed : BatchStatus → BatchStatus → Bool
allowed collecting serializing = true
allowed collecting failed = true
allowed serializing uploading = true
allowed serializing failed = true
allowed uploading uploaded = true
allowed uploading failed = true
allowed uploaded committed = true
allowed failed serializing = true
allowed _ _ = false

abbrev status_number : BatchStatus → ℕ
status_number collecting = 0
status_number serializing = 1
status_number uploading = 2
status_number uploaded = 3
status_number committed = 4
status_number failed = 5

abbrev pub status_eq : BatchStatus → BatchStatus → Bool
status_eq a b = status_number a == status_number b

-- `_safe_error`
unfoldable pub safe_error : String → String
safe_error message = prefix 1024 (replace_breaks message)

-- `SELECT * ... WHERE batch_id = ?`
unfoldable pub select_row : String → Table → Option BatchManifestRecord
select_row id [] = none
select_row id (r ∷ t) = if str_eq r.batch_id id then some r else select_row id t

-- The `CHECK`s and the `UNIQUE` range of the table, for a row to be inserted.
same_range : BatchManifestRecord → BatchManifestRecord → Bool
same_range a b =
    str_eq a.consumer_group b.consumer_group
    && str_eq a.topic b.topic
    && a.partition == b.partition
    && a.offset_start == b.offset_start
    && a.offset_end == b.offset_end

has_range : BatchManifestRecord → Table → Bool
has_range row [] = false
has_range row (r ∷ t) = same_range r row || has_range row t

unfoldable pub violates : BatchManifestRecord → Table → Bool
unfolding has_range same_range
violates row t = ltb row.offset_end row.offset_start || row.record_count == 0 || has_range row t

-- The row of `INSERT INTO cdc_batch_manifest`.
unfoldable pub new_row : CdcBatch → String → String → BatchManifestRecord
new_row b consumer_group now = record {
  batch_id = b.batch_id;
  consumer_group = consumer_group;
  topic = b.topic;
  partition = b.partition;
  offset_start = b.offset_start;
  offset_end = b.offset_end;
  status = collecting;
  record_count = record_count b;
  schema_version = b.schema_version;
  checksum_sha256 = none;
  object_uri = none;
  created_at = now;
  upload_started_at = none;
  uploaded_at = none;
  committed_at = none;
  error_code = none;
  error_message = none;
  retry_count = 0;
}

-- `actual == expected` of `register`
unfoldable pub describes : CdcBatch → String → BatchManifestRecord → Bool
describes b consumer_group r =
    str_eq r.consumer_group consumer_group
    && str_eq r.topic b.topic
    && r.partition == b.partition
    && r.offset_start == b.offset_start
    && r.offset_end == b.offset_end
    && r.record_count == record_count b
    && str_eq r.schema_version b.schema_version

-- The check at the end of `register`; a conflict rolls the insertion back to `before`.
confirm : CdcBatch → String → Table → Option BatchManifestRecord → Action BatchManifestRecord
confirm b consumer_group before none t = (err assertion_failed, before)
confirm b consumer_group before (some r) t =
    if describes b consumer_group r then (ok r, t) else (err manifest_conflict, before)

insert_or_confirm :
    CdcBatch → String → String → Option BatchManifestRecord → Action BatchManifestRecord
insert_or_confirm b consumer_group now (some r) t = confirm b consumer_group t (some r) t
insert_or_confirm b consumer_group now none t =
    let row = new_row b consumer_group now in
    let t' = t ++ row ∷ [] in
    if violates row t
    then (err manifest_conflict, t)
    else confirm b consumer_group t (select_row b.batch_id t') t'

unfoldable pub register : CdcBatch → String → String → Action BatchManifestRecord
unfolding insert_or_confirm confirm
register b consumer_group now t = insert_or_confirm b consumer_group now (select_row b.batch_id t) t

-- `_require`
unfoldable pub require : String → Action BatchManifestRecord
require id t = elim (select_row id t) [ none ↦ (err unknown_batch, t) | some r ↦ (ok r, t) ]

-- One `column = ?` of an update; these are the columns that `_transition` accepts.
pub data Assignment : Type 0 where
  checksum_sha256 object_uri error_code error_message : Option String → Assignment
  upload_started_at uploaded_at committed_at : ℕ → Assignment
  retry_count : ℕ → Assignment

assign : Assignment → BatchManifestRecord → BatchManifestRecord
assign (checksum_sha256 v) r = record r { checksum_sha256 = v }
assign (object_uri v) r = record r { object_uri = v }
assign (error_code v) r = record r { error_code = v }
assign (error_message v) r = record r { error_message = v }
assign (upload_started_at v) r = record r { upload_started_at = some v }
assign (uploaded_at v) r = record r { uploaded_at = some v }
assign (committed_at v) r = record r { committed_at = some v }
assign (retry_count v) r = record r { retry_count = v }

unfoldable pub assign_all : List Assignment → BatchManifestRecord → BatchManifestRecord
unfolding assign
assign_all [] r = r
assign_all (a ∷ as') r = assign_all as' (assign a r)

-- `UPDATE ... WHERE batch_id = ? AND status = ?`, and its `rowcount`
unfoldable pub is_target : String → BatchStatus → BatchManifestRecord → Bool
is_target id current r = str_eq r.batch_id id && status_eq r.status current

unfoldable pub update_rows :
    String → BatchStatus → (BatchManifestRecord → BatchManifestRecord) → Table → Table
update_rows id current f [] = []
update_rows id current f (r ∷ t) =
    let rest = update_rows id current f t in if is_target id current r then f r ∷ rest else r ∷ rest

unfoldable pub row_count : String → BatchStatus → Table → ℕ
row_count id current [] = 0
row_count id current (r ∷ t) =
    let rest = row_count id current t in if is_target id current r then rest + 1 else rest

-- The second session of `_transition`, on a table that others may have changed since `current`
-- was read.
unfoldable pub apply_transition :
    String → BatchStatus → BatchStatus → List Assignment → Action (Unit {0})
unfolding update_rows row_count is_target assign_all
apply_transition id current target updates t =
    if row_count id current t == 1
    then (ok tt, update_rows id current (λ r. assign_all updates (record r { status = target })) t)
    else (err concurrent_change, t)

-- `_transition` with no other writer between its sessions
unfoldable pub transition : String → BatchStatus → List Assignment → Action BatchManifestRecord
transition id target updates = do
  current ← require id
  if allowed current.status target
      then (do apply_transition id current.status target updates; require id)
      else raise invalid_transition
