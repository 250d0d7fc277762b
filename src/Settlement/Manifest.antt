-- ===== src/Settlement/Manifest.antt =====
-- src/ingestion/batch/manifest.py: the SQLite table of the settlement files. A method is an action
-- on the table's rows; an exception rolls its session back.
pub mod Laws
pub mod Discovery
pub mod History
use Prim.Native.String.{count, compare as compare_text}
use text.Mathlib.Text.{is_eq, is_lt}
use fintech_payments_data_pl.Prelude.{
  ℕ, ◌+◌, String, Bool, true, false, not, ◌&&◌, ◌||◌, Option, none, some, List, [], ◌∷◌, ◌++◌, ok,
  err, Exec, ◌>>=◌, ◌>>◌, ◌==◌, str_eq, if◌then◌else◌,
}
use fintech_payments_data_pl.Prelude.Rows.{first_row, update_where, count_where, sort_by}
use fintech_payments_data_pl.Settlement.Models.{
  ManifestStatus, discovered, validating, validated, processing, processed, quarantined, failed,
  DuplicateKind, new_file, same_name_changed_content, same_name_same_content,
  different_name_same_content, ManifestRecord,
}

-- `ManifestError` by the place that raises it, and SQLite's own constraint failure
pub data ManifestError : Type 0 where
  no_such_file invalid_transition concurrent_update lost_row integrity_error : ManifestError

abbrev pub Table : Type 0
Table = List ManifestRecord

abbrev pub Action : Type 0 → Type 0
Action A = Exec ManifestError Table A

abbrev pub settlement_source_name : String
settlement_source_name = "banking_partner_settlement"

-- `ALLOWED_TRANSITIONS`
abbrev pub allowed : ManifestStatus → ManifestStatus → Bool
allowed discovered validating = true
allowed discovered failed = true
allowed validating validating = true
allowed validating validated = true
allowed validating quarantined = true
allowed validating failed = true
allowed validated validating = true
allowed validated processing = true
allowed validated quarantined = true
allowed validated failed = true
allowed processing validating = true
allowed processing processed = true
allowed processing quarantined = true
allowed processing failed = true
allowed failed validating = true
allowed _ _ = false

abbrev status_number : ManifestStatus → ℕ
status_number discovered = 0
status_number validating = 1
status_number validated = 2
status_number processing = 3
status_number processed = 4
status_number quarantined = 5
status_number failed = 6

abbrev pub status_eq : ManifestStatus → ManifestStatus → Bool
status_eq a b = status_number a == status_number b

abbrev pub has_file_id : String → ManifestRecord → Bool
has_file_id id r = str_eq r.file_id id

-- The arguments of `register_discovery`.
pub record Discovered : Type 0 where
  pub partner_id : String
  pub file_name : String
  pub file_path : String
  pub file_size_bytes : ℕ
  pub checksum_sha256 : String
  pub schema_version : String
  pub settlement_date : Option String
  pub discovered_at : String
  pub ingestion_run_id : String

-- `WHERE source_name = ? AND partner_id = ? AND checksum_sha256 = ?`, also the `UNIQUE` columns
unfoldable pub has_content : String → String → ManifestRecord → Bool
has_content partner checksum r =
    str_eq r.source_name settlement_source_name
    && str_eq r.partner_id partner
    && str_eq r.checksum_sha256 checksum

-- `WHERE source_name = ? AND partner_id = ? AND file_name = ?`
unfoldable pub has_name : String → String → ManifestRecord → Bool
has_name partner name r =
    str_eq r.source_name settlement_source_name
    && str_eq r.partner_id partner
    && str_eq r.file_name name

-- The row of its `INSERT`, with the defaults of the other columns.
abbrev pub new_row : String → Discovered → ManifestRecord
new_row file_id a = record {
  file_id = file_id;
  source_name = settlement_source_name;
  partner_id = a.partner_id;
  file_name = a.file_name;
  file_path = a.file_path;
  file_size_bytes = a.file_size_bytes;
  checksum_sha256 = a.checksum_sha256;
  schema_version = a.schema_version;
  settlement_date = a.settlement_date;
  discovered_at = a.discovered_at;
  processing_started_at = none;
  processed_at = none;
  status = discovered;
  record_count = 0;
  accepted_count = 0;
  rejected_count = 0;
  error_code = none;
  error_message = none;
  bronze_path = none;
  quarantine_path = none;
  ingestion_run_id = a.ingestion_run_id;
}

-- Whether a prior row has the name, which is all that is asked of it.
unfoldable pub name_kind : Option ManifestRecord → DuplicateKind
name_kind none = new_file
name_kind (some r) = same_name_changed_content

unfoldable pub content_kind : Discovered → ManifestRecord → DuplicateKind
content_kind a r =
    if str_eq r.file_name a.file_name then same_name_same_content else different_name_same_content

-- The `CHECK` of the checksum and the primary key; the `UNIQUE` columns have been looked up.
unfoldable pub violates : String → Discovered → Table → Bool
violates file_id a t =
    not (count a.checksum_sha256 == 64) || not (count_where (has_file_id file_id) t == 0)

-- `get`
unfoldable pub get : String → Table → Option ManifestRecord
get id t = first_row (has_file_id id) t

-- The row that is read back at the end of a session; without one `before` is restored.
unfoldable pub read_back :
    {A : Type 0} → (ManifestRecord → A) → Table → Option ManifestRecord → Action A
read_back f before none t = (err lost_row, before)
read_back f before (some r) t = (ok (f r), t)

-- `file_id` is `deterministic_file_id` of the source, the partner and the checksum.
module _ (deterministic_file_id : String → String → String → String) where
  unfoldable pub insert_discovery : Discovered → Action (ManifestRecord × DuplicateKind)
  insert_discovery a t =
      let kind = name_kind (first_row (has_name a.partner_id a.file_name) t) in
      let file_id = deterministic_file_id settlement_source_name a.partner_id a.checksum_sha256 in
      let t' = t ++ new_row file_id a ∷ [] in
      if violates file_id a t
      then (err integrity_error, t)
      else read_back (λ r. (r, kind)) t (get file_id t') t'

  unfoldable pub classify :
      Discovered → Option ManifestRecord → Action (ManifestRecord × DuplicateKind)
  unfolding insert_discovery
  classify a (some r) t = (ok (r, content_kind a r), t)
  classify a none t = insert_discovery a t

  unfoldable pub register_discovery : Discovered → Action (ManifestRecord × DuplicateKind)
  register_discovery a t = classify a (first_row (has_content a.partner_id a.checksum_sha256) t) t

-- One `column = ?` of an update; these are `UPDATABLE_COLUMNS`.
pub data Update : Type 0 where
  file_path ingestion_run_id : String → Update
  file_size_bytes record_count accepted_count rejected_count : ℕ → Update
  processing_started_at processed_at : Option String → Update
  error_code error_message bronze_path quarantine_path : Option String → Update

pub assign : Update → ManifestRecord → ManifestRecord
assign (file_path v) r = record r { file_path = v }
assign (ingestion_run_id v) r = record r { ingestion_run_id = v }
assign (file_size_bytes v) r = record r { file_size_bytes = v }
assign (record_count v) r = record r { record_count = v }
assign (accepted_count v) r = record r { accepted_count = v }
assign (rejected_count v) r = record r { rejected_count = v }
assign (processing_started_at v) r = record r { processing_started_at = v }
assign (processed_at v) r = record r { processed_at = v }
assign (error_code v) r = record r { error_code = v }
assign (error_message v) r = record r { error_message = v }
assign (bronze_path v) r = record r { bronze_path = v }
assign (quarantine_path v) r = record r { quarantine_path = v }

pub assign_all : List Update → ManifestRecord → ManifestRecord
unfolding assign
assign_all [] r = r
assign_all (u ∷ us) r = assign_all us (assign u r)

abbrev pub is_target : String → ManifestStatus → ManifestRecord → Bool
is_target id current r = str_eq r.file_id id && status_eq r.status current

pub write : ManifestStatus → List Update → ManifestRecord → ManifestRecord
unfolding assign_all
write status updates r = assign_all updates (record r { status = status })

pub update_file :
    String → ManifestStatus → List Update → Option ManifestRecord → Action ManifestRecord
update_file id status updates none t = (err no_such_file, t)
update_file id status updates (some r) t =
    let t' = update_where (is_target id r.status) (write status updates) t in
    if not (allowed r.status status)
    then (err invalid_transition, t)
    else if count_where (is_target id r.status) t == 1
    then read_back (λ r. r) t (get id t') t'
    else (err concurrent_update, t)

pub transition : String → ManifestStatus → List Update → Action ManifestRecord
transition id status updates t = update_file id status updates (get id t) t

-- `ORDER BY discovered_at, file_id`
discovered_order : ManifestRecord → ManifestRecord → Bool
discovered_order a b =
    is_lt (compare_text a.discovered_at b.discovered_at)
    || (is_eq (compare_text a.discovered_at b.discovered_at)
        && not (is_lt (compare_text b.file_id a.file_id)))

unfoldable pub list_all : Table → Table
unfolding discovered_order
list_all t = sort_by discovered_order t
