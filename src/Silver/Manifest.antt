-- ===== src/Silver/Manifest.antt =====
-- src/processing/silver/manifest.py: the SQLite table of the processing runs. A method is an action
-- on the table's rows; an exception rolls its session back. A column of JSON text holds the list
-- that it was written from, a timestamp its text.
pub mod Queries
pub mod Laws
pub mod Results
pub mod History
use fintech_payments_data_pl.Prelude.{
  ℕ, ◌+◌, String, Bool, true, false, not, ◌&&◌, Option, none, some, List, [], ◌∷◌, ◌++◌, map, ok,
  err, Exec, raise, pure, ◌>>=◌, ◌>>◌, ◌==◌, str_eq, if◌then◌else◌,
}
use fintech_payments_data_pl.Prelude.Text.{prefix}
use fintech_payments_data_pl.Prelude.Rows.{first_row, update_where, count_where}
use fintech_payments_data_pl.Silver.Models.{
  ProcessingStatus, discovered, reading, validating, transforming, writing, completed, failed,
  quarantined, SourceType, SilverOutput, ProcessingRun,
}

-- `ProcessingManifestError`, by the place that raises it
pub data ProcessingManifestError : Type 0 where
  run_exists unknown_run invalid_transition : ProcessingManifestError
  concurrent_update assertion_failed : ProcessingManifestError

abbrev pub Table : Type 0
Table = List ProcessingRun

abbrev pub Action : Type 0 → Type 0
Action A = Exec ProcessingManifestError Table A

-- `TRANSITIONS`
abbrev pub transitions : ProcessingStatus → ProcessingStatus → Bool
transitions discovered reading = true
transitions discovered failed = true
transitions discovered quarantined = true
transitions reading validating = true
transitions reading failed = true
transitions reading quarantined = true
transitions validating transforming = true
transitions validating failed = true
transitions validating quarantined = true
transitions transforming writing = true
transitions transforming failed = true
transitions transforming quarantined = true
transitions writing completed = true
transitions writing failed = true
transitions _ _ = false

abbrev pub status_number : ProcessingStatus → ℕ
status_number discovered = 0
status_number reading = 1
status_number validating = 2
status_number transforming = 3
status_number writing = 4
status_number completed = 5
status_number failed = 6
status_number quarantined = 7

abbrev pub status_eq : ProcessingStatus → ProcessingStatus → Bool
status_eq a b = status_number a == status_number b

abbrev pub has_run_id : String → ProcessingRun → Bool
has_run_id id r = str_eq r.run_id id

-- The arguments of `register`.
pub record Registration : Type 0 where
  pub run_id : String
  pub pipeline_name : String
  pub source_type : SourceType
  pub entity_name : String
  pub input_object_uri : String
  pub input_checksum : String
  pub code_version : String
  pub schema_version : String
  pub started_at : String

-- The row of its `INSERT`, with the defaults of the other columns.
abbrev pub new_run : Registration → ProcessingRun
new_run a = record {
  run_id = a.run_id;
  pipeline_name = a.pipeline_name;
  source_type = a.source_type;
  entity_name = a.entity_name;
  input_object_uri = a.input_object_uri;
  input_checksum = a.input_checksum;
  input_record_count = 0;
  status = discovered;
  started_at = a.started_at;
  completed_at = none;
  output_object_uris = [];
  outputs = [];
  output_record_count = 0;
  rejected_record_count = 0;
  error_code = none;
  error_message = none;
  code_version = a.code_version;
  schema_version = a.schema_version;
}

-- `get`
unfoldable pub get : String → Table → Option ProcessingRun
get id t = first_row (has_run_id id) t

-- `get` and the assertion behind it
unfoldable pub asserted : Option ProcessingRun → Action ProcessingRun
asserted none = raise assertion_failed
asserted (some r) = pure r

unfoldable pub get_back : String → Action ProcessingRun
get_back id t = asserted (get id t) t

-- The insertion breaks the primary key exactly when the id has a row.
unfoldable pub insert_run : Registration → Option ProcessingRun → Action (Unit {0})
insert_run a (some r) t = (err run_exists, t)
insert_run a none t = (ok tt, t ++ new_run a ∷ [])

unfoldable pub register : Registration → Action ProcessingRun
register a = do (λ t. insert_run a (get a.run_id t) t); get_back a.run_id

-- One `column = ?` of an update; these are the columns that `transition` accepts.
pub data Update : Type 0 where
  input_record_count output_record_count rejected_record_count : ℕ → Update
  completed_at : String → Update
  output_object_uris : List String → Update
  output_descriptors : List SilverOutput → Update
  error_code error_message : Option String → Update

pub assign : Update → ProcessingRun → ProcessingRun
assign (input_record_count n) r = record r { input_record_count = n }
assign (output_record_count n) r = record r { output_record_count = n }
assign (rejected_record_count n) r = record r { rejected_record_count = n }
assign (completed_at s) r = record r { completed_at = some s }
assign (output_object_uris l) r = record r { output_object_uris = l }
assign (output_descriptors l) r = record r { outputs = l }
assign (error_code v) r = record r { error_code = v }
assign (error_message v) r = record r { error_message = v }

unfoldable pub assign_all : List Update → ProcessingRun → ProcessingRun
unfolding assign
assign_all [] r = r
assign_all (u ∷ us) r = assign_all us (assign u r)

-- `UPDATE ... WHERE run_id = ? AND status = ?`
abbrev pub is_target : String → ProcessingStatus → ProcessingRun → Bool
is_target id current r = str_eq r.run_id id && status_eq r.status current

unfoldable pub write : ProcessingStatus → List Update → ProcessingRun → ProcessingRun
unfolding assign_all
write status updates r = assign_all updates (record r { status = status })

unfoldable pub update_run :
    String → ProcessingStatus → List Update → Option ProcessingRun → Action (Unit {0})
update_run id status updates none t = (err unknown_run, t)
update_run id status updates (some r) t =
    if not (transitions r.status status)
    then (err invalid_transition, t)
    else if count_where (is_target id r.status) t == 1
    then (ok tt, update_where (is_target id r.status) (write status updates) t)
    else (err concurrent_update, t)

unfoldable pub transition : String → ProcessingStatus → List Update → Action ProcessingRun
transition id status updates = do (λ t. update_run id status updates (get id t) t); get_back id

unfoldable pub mark_reading : String → Action ProcessingRun
mark_reading id = transition id reading []

unfoldable pub mark_validating : String → ℕ → Action ProcessingRun
mark_validating id input_count = transition id validating (input_record_count input_count ∷ [])

unfoldable pub mark_transforming : String → Action ProcessingRun
mark_transforming id = transition id transforming []

unfoldable pub mark_writing : String → Action ProcessingRun
mark_writing id = transition id writing []

unfoldable pub mark_completed : String → List SilverOutput → ℕ → ℕ → String → Action ProcessingRun
mark_completed id outputs output_count rejected_count at = transition id completed (
    completed_at at
    ∷ output_object_uris (map (λ o. o.object_uri) outputs)
    ∷ output_descriptors outputs
    ∷ output_record_count output_count
    ∷ rejected_record_count rejected_count
    ∷ error_code none
    ∷ error_message none
    ∷ [])

-- `current.status in {COMPLETED, QUARANTINED}`
abbrev pub is_settled : ProcessingStatus → Bool
is_settled completed = true
is_settled quarantined = true
is_settled _ = false

fail_run : String → String → String → String → Option ProcessingRun → Action ProcessingRun
fail_run id error_name message now none = raise unknown_run
fail_run id error_name message now (some r) =
    if is_settled r.status
    then pure r
    else transition id failed (
        completed_at now
        ∷ error_code (some error_name)
        ∷ error_message (some (prefix 1000 message))
        ∷ [])

-- `now` is `utc_iso(datetime.now(UTC))`, `error_name` and `message` are read off the exception.
unfoldable pub mark_failed : String → String → String → String → Action ProcessingRun
unfolding fail_run
mark_failed id error_name message now t = fail_run id error_name message now (get id t) t

unfoldable pub mark_quarantined : String → String → String → ℕ → String → Action ProcessingRun
mark_quarantined id code message rejected_count at = transition id quarantined (
    completed_at at
    ∷ rejected_record_count rejected_count
    ∷ error_code (some code)
    ∷ error_message (some (prefix 1000 message))
    ∷ [])
