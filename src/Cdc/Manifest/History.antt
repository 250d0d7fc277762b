-- ===== src/Cdc/Manifest/History.antt =====
-- How every method of the manifest moves the table, whether it returns or raises.
use Prim.Native.String.{count}
use fintech_payments_data_pl.Prelude.{
  ℕ, String, ◌≡◌, refl, true, Option, none, some, List, [], ◌∷◌, ◌++◌, Bool-cases, inl, inr, ◌+◌,
  pure, raise, if◌then◌else◌, ◌==◌,
}
use fintech_payments_data_pl.Cdc.Models.{
  BatchStatus, collecting, serializing, uploading, uploaded, committed, failed,
}
use fintech_payments_data_pl.Cdc.Models.Batch.{CdcBatch}
use fintech_payments_data_pl.Cdc.Manifest.{
  BatchManifestRecord, Table, manifest_conflict, status_eq, safe_error, checksum_sha256, object_uri,
  error_code, error_message, uploaded_at, retry_count, select_row, transition, assign_all, register,
  insert_or_confirm, confirm, new_row, violates, describes,
}
use fintech_payments_data_pl.Cdc.Manifest.Methods.{
  is_durable, is_past_serializing, is_past_uploading, same_evidence, mark_serializing,
  mark_uploading, mark_uploaded, mark_committed, mark_failed, note_retryable_error,
}
use fintech_payments_data_pl.Cdc.Manifest.Progress.{
  Leads-durable, stays, Moves, Moves-refl, Moves-Progress, Progress, Progress-refl, Progress-trans,
  IsSafe, update_rows-Moves,
}
use fintech_payments_data_pl.Cdc.Manifest.Safe.{
  append-Moves, require-state, require-Moves, transition-Moves, serializing_safe, uploading_safe,
  uploaded_safe, failed_safe, committed_safe,
}

confirm-Moves :
    (b : CdcBatch) (group : String) (before t : Table) (o : Option BatchManifestRecord)
    → Moves collecting before t
    → Moves collecting before (confirm b group before o t).1
unfolding confirm
confirm-Moves b group before t none p = Moves-refl collecting before
confirm-Moves b group before t (some r) p = elim (Bool-cases (describes b group r)) [
  | inl yes_it_is ↦ rw yes_it_is p
  | inr differs ↦ rw differs (Moves-refl collecting before)
]

insert-Moves :
    (b : CdcBatch) (group now : String) (t : Table) (o : Option BatchManifestRecord)
    → Moves collecting t (insert_or_confirm b group now o t).1
unfolding insert_or_confirm
insert-Moves b group now t (some r) = confirm-Moves b group t t (some r) (Moves-refl collecting t)
insert-Moves b group now t none = elim (Bool-cases (violates (new_row b group now) t)) [
  | inl refused ↦ rw refused (Moves-refl collecting t)
  | inr fits ↦
      let t' = t ++ new_row b group now ∷ [] in
      rw fits (
        confirm-Moves b group t t' (select_row b.batch_id t')
          (append-Moves collecting t (new_row b group now) (unfold new_row in refl)))
]

pub register-Moves :
    (b : CdcBatch) (group now : String) (t : Table) → Moves collecting t (register b group now t).1
register-Moves b group now t =
    unfold register in insert-Moves b group now t (select_row b.batch_id t)

pub mark_serializing-Moves :
    (id : String) (t : Table) → Moves serializing t (mark_serializing id t).1
unfolding mark_serializing
mark_serializing-Moves id t = require-Moves serializing id _ t λ r found.
    elim (Bool-cases (is_past_serializing r.status)) [
      | inl past ↦ rw past (Moves-refl serializing t)
      | inr before ↦ rw before (transition-Moves id serializing [] t serializing_safe)
    ]

pub mark_uploading-Moves :
    (id : String) (now : ℕ) (t : Table) → Moves uploading t (mark_uploading id now t).1
unfolding mark_uploading
mark_uploading-Moves id now t = require-Moves uploading id _ t λ r found.
    elim (Bool-cases (is_past_uploading r.status)) [
      | inl past ↦ rw past (Moves-refl uploading t)
      | inr before ↦ rw before (transition-Moves id uploading _ t (uploading_safe now))
    ]

-- Either there is evidence already, or the row is uploaded now.
uploaded_branch-Moves :
    (id checksum uri : String) (now : ℕ) (t : Table) (r : BatchManifestRecord)
    → Moves uploaded t
        ((if is_durable r.status
            then (if same_evidence checksum uri r then pure r else raise manifest_conflict)
            else transition id uploaded (
                checksum_sha256 (some checksum)
                ∷ object_uri (some uri)
                ∷ uploaded_at now
                ∷ error_code none
                ∷ error_message none
                ∷ []))
          t).1
uploaded_branch-Moves id checksum uri now t r = elim (Bool-cases (is_durable r.status)) [
  | inl durable ↦ rw durable (elim (Bool-cases (same_evidence checksum uri r)) [
    | inl same ↦ rw same (Moves-refl uploaded t)
    | inr differs ↦ rw differs (Moves-refl uploaded t)
  ])
  | inr open_row ↦
      rw open_row (transition-Moves id uploaded _ t (uploaded_safe (some checksum) (some uri) now))
]

pub mark_uploaded-Moves :
    (id checksum uri : String) (now : ℕ) (t : Table)
    → Moves uploaded t (mark_uploaded id checksum uri now t).1
unfolding mark_uploaded
mark_uploaded-Moves id checksum uri now t = elim (Bool-cases (count checksum == 64)) [
  | inl long ↦
      rw long
        (require-Moves uploaded id _ t (λ r found. uploaded_branch-Moves id checksum uri now t r))
  | inr short ↦ rw short (Moves-refl uploaded t)
]

pub mark_committed-Moves :
    (id : String) (now : ℕ) (t : Table) → Moves committed t (mark_committed id now t).1
unfolding mark_committed
mark_committed-Moves id now t = require-Moves committed id _ t λ r found.
    elim (Bool-cases (status_eq r.status committed)) [
      | inl done ↦ rw done (Moves-refl committed t)
      | inr before ↦ rw before (transition-Moves id committed _ t (committed_safe now))
    ]

-- A note changes the error fields alone.
note-IsSafe :
    (target current : BatchStatus) (code message : Option String) (retries : ℕ)
    → IsSafe target current
        (assign_all (error_code code ∷ error_message message ∷ retry_count retries ∷ []))
unfolding assign_all
note-IsSafe target current code message retries r e = record {
  leads = stays refl;
  batch_id = refl;
  consumer_group = refl;
  topic = refl;
  partition = refl;
  offset_start = refl;
  offset_end = refl;
  checksum = λ h. refl;
  uri = λ h. refl;
}

note-batch_id :
    (code message : Option String) (retries : ℕ) (r : BatchManifestRecord)
    → (assign_all (error_code code ∷ error_message message ∷ retry_count retries ∷ []) r).batch_id
      ≡ r.batch_id
unfolding assign_all
note-batch_id code message retries r = refl

pub note_retryable_error-Moves :
    (target : BatchStatus) (id code message : String) (t : Table)
    → Moves target t (note_retryable_error id code message t).1
unfolding note_retryable_error
note_retryable_error-Moves target id code message t = require-Moves target id _ t λ r found.
    rw (require-state id _) (
      update_rows-Moves target id r.status _ t
        (note-batch_id (some code) (some (safe_error message)) (r.retry_count + 1))
        (note-IsSafe target r.status (some code) (some (safe_error message)) (r.retry_count + 1)))

pub mark_failed-Moves :
    (id code message : String) (t : Table) → Moves failed t (mark_failed id code message t).1
unfolding mark_failed
mark_failed-Moves id code message t = require-Moves failed id _ t λ r found.
    elim (Bool-cases (is_durable r.status)) [
      | inl durable ↦ rw durable (Moves-refl failed t)
      | inr open_row ↦ rw open_row (elim (Bool-cases (status_eq r.status failed)) [
        | inl again ↦ rw again (note_retryable_error-Moves failed id code message t)
        | inr first ↦ rw first (
            transition-Moves id failed _ t
              (failed_safe (some code) (some (safe_error message)) (r.retry_count + 1)))
      ])
    ]

-- The calls of the manifest's methods.
pub data ManifestCall : Type 0 where
  registering : CdcBatch → String → String → ManifestCall
  serializing_call : String → ManifestCall
  uploading_call : String → ℕ → ManifestCall
  uploaded_call : String → String → String → ℕ → ManifestCall
  committed_call : String → ℕ → ManifestCall
  failed_call : String → String → String → ManifestCall
  note_call : String → String → String → ManifestCall

pub perform : ManifestCall → Table → Table
perform (registering b group now) t = (register b group now t).1
perform (serializing_call id) t = (mark_serializing id t).1
perform (uploading_call id now) t = (mark_uploading id now t).1
perform (uploaded_call id checksum uri now) t = (mark_uploaded id checksum uri now t).1
perform (committed_call id now) t = (mark_committed id now t).1
perform (failed_call id code message) t = (mark_failed id code message t).1
perform (note_call id code message) t = (note_retryable_error id code message t).1

-- The table after a sequence of calls; an exception ends only its own call.
pub perform_all : List ManifestCall → Table → Table
unfolding perform
perform_all [] t = t
perform_all (c ∷ calls) t = perform_all calls (perform c t)

-- The status that a call is to reach. No step leads to COLLECTING: a note and a registration move no
-- row.
abbrev pub target_of : ManifestCall → BatchStatus
target_of (registering b group now) = collecting
target_of (serializing_call id) = serializing
target_of (uploading_call id now) = uploading
target_of (uploaded_call id checksum uri now) = uploaded
target_of (committed_call id now) = committed
target_of (failed_call id code message) = failed
target_of (note_call id code message) = collecting

perform-Moves : (c : ManifestCall) (t : Table) → Moves (target_of c) t (perform c t)
unfolding perform
perform-Moves (registering b group now) t = register-Moves b group now t
perform-Moves (serializing_call id) t = mark_serializing-Moves id t
perform-Moves (uploading_call id now) t = mark_uploading-Moves id now t
perform-Moves (uploaded_call id checksum uri now) t = mark_uploaded-Moves id checksum uri now t
perform-Moves (committed_call id now) t = mark_committed-Moves id now t
perform-Moves (failed_call id code message) t = mark_failed-Moves id code message t
perform-Moves (note_call id code message) t =
    note_retryable_error-Moves collecting id code message t

-- Every call of a sequence moves the table that it meets to the one that it leaves.
abbrev pub AllMove : List ManifestCall → Table → Type 0
AllMove [] t = Unit
AllMove (c ∷ calls) t = Moves (target_of c) t (perform c t) × AllMove calls (perform c t)

-- In any sequence of calls, returning or raising, each call keeps every row with its coordinates
-- and, where it is uploaded or committed, its checksum and URI; it leaves the status of a row as it
-- was or takes it by one step of the lifecycle to the status that the call is named for (a
-- registration or a note leaves it); and a row that appears is COLLECTING.
pub perform_all-Moves : (calls : List ManifestCall) (t : Table) → AllMove calls t
perform_all-Moves [] t = tt
perform_all-Moves (c ∷ calls) t = (perform-Moves c t, perform_all-Moves calls (perform c t))

-- So every row goes forward along the lifecycle.
perform_all-Progress : (calls : List ManifestCall) (t : Table) → Progress t (perform_all calls t)
unfolding perform_all
perform_all-Progress [] t = Progress-refl t
perform_all-Progress (c ∷ calls) t =
    Progress-trans (Moves-Progress (target_of c) t (perform c t) (perform-Moves c t))
      (perform_all-Progress calls (perform c t))

-- An uploaded or committed batch stays so, with the same checksum and URI, whatever is called.
pub durable_forever :
    (calls : List ManifestCall) (t : Table) (id : String) (r : BatchManifestRecord)
    → select_row id t ≡ some r
    → is_durable r.status ≡ true
    → (r' : BatchManifestRecord) × (select_row id (perform_all calls t) ≡ some r')
      × (is_durable r'.status ≡ true)
      × (r'.checksum_sha256 ≡ r.checksum_sha256)
      × (r'.object_uri ≡ r.object_uri)
durable_forever calls t id r found durable =
    let (r', found', a) = (perform_all-Progress calls t).kept id r found in
    (r', found', Leads-durable a.leads durable, a.checksum durable, a.uri durable)
