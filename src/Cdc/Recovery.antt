-- ===== src/Cdc/Recovery.antt =====
-- src/ingestion/cdc_consumer/recovery.py: a batch is uploaded before its offset is committed. The
-- state is the manifest's table, the world outside it (objects, Kafka, files, clock), and the local
-- variable `serialized`.
pub mod Triples
pub mod Steps
pub mod Calls
pub mod World
pub mod Upload
pub mod Safety
pub mod Restarts
mod Memory
mod Tests
use fintech_payments_data_pl.Prelude.{
  ℕ, ◌+◌, String, Bool, true, false, not, ◌&&◌, Option, none, some, List, [], ◌∷◌, Result, ok, err,
  Exec, pure, raise, ◌>>=◌, ◌>>◌, answer, rescue, finally, ◌==◌, leb, str_eq, if◌then◌else◌,
}
use fintech_payments_data_pl.Prelude.Dict.{Dict, get}
use fintech_payments_data_pl.Storage.{StoredObject, text_Eq}
use fintech_payments_data_pl.Cdc.Models.{
  TopicPartitionKey, key_Eq, BatchStatus, uploaded, committed,
}
use fintech_payments_data_pl.Cdc.Models.Batch.{CdcBatch, next_offset}
use fintech_payments_data_pl.Cdc.Manifest.{
  BatchManifestRecord, Table, Action, ManifestError, select_row, register, status_eq,
}
use fintech_payments_data_pl.Cdc.Manifest.Methods.{
  is_durable, mark_serializing, mark_uploading, mark_uploaded, mark_committed, mark_failed,
  note_retryable_error, recoverable,
}
use fintech_payments_data_pl.Cdc.Retry.{
  Raised, RetryPolicy, retry_call, manifest_raised, runtime_error, immutable_collision,
}
use fintech_payments_data_pl.Cdc.Storage.{
  SerializedParquet, Backend, put_batch, stat_batch, verify_batch,
}

-- What the processor uses of the world: the storage backend, PyArrow's writing of a batch to a
-- temporary file and the file's removal, Kafka's commit, the sleeping of `retry_call`, what a SQLite
-- session may raise when it opens and when it closes, and the clock. `Instant` is `datetime`;
-- `stored_instant` reads a row's `created_at` back.
pub record Services : Type 1 where
  pub World : Type 0
  pub Instant : Type 0
  pub backend : Backend World
  pub serialize : CdcBatch → Instant → Exec Raised World SerializedParquet
  pub unlink : String → Exec Raised World (Unit {0})
  pub commit_offset : String → ℕ → ℕ → Exec Raised World (Unit {0})
  pub sleep : ℕ → World → World
  pub open_session : Exec Raised World (Unit {0})
  pub close_session : Exec Raised World (Unit {0})
  pub now : World → ℕ
  pub now_text : World → String
  pub parse_instant : String → Result Raised Instant
  pub stored_instant : String → Instant
  pub utc_isoformat : Instant → String
  pub error_name : Raised → String
  pub error_text : Raised → String

-- The constructor's other arguments.
pub record Settings : Type 0 where
  pub bronze_bucket : String
  pub consumer_group : String
  pub retry_policy : RetryPolicy

pub record BatchProcessResult : Type 0 where
  pub batch_id : String
  pub object_uri : String
  pub checksum_sha256 : String
  pub committed_offset : ℕ
  pub replayed : Bool

module _ (sv : Services) where
  pub record Run : Type 0 where
    pub table : Table
    pub world : sv.World
    pub serialized : Option SerializedParquet

  abbrev pub Step : Type 0 → Type 0
  Step A = Exec Raised Run A

  -- A call of the world.
  abbrev with_world : {A : Type 0} → Run → Result Raised A × sv.World → Result Raised A × Run
  with_world s (r, w) = (r, record s { world = w })

  unfoldable pub outside : {A : Type 0} → Exec Raised sv.World A → Step A
  outside m s = with_world s (m s.world)

  abbrev raised : {A : Type 0} → Result ManifestError A → Result Raised A
  raised (ok a) = ok a
  raised (err e) = err (manifest_raised e)

  abbrev with_table : {A : Type 0} → Run → Result ManifestError A × Table → Result Raised A × Run
  with_table s (r, t) = (raised r, record s { table = t })

  -- The statements of a method of the manifest.
  unfoldable pub inside : {A : Type 0} → (sv.World → Action A) → Step A
  inside m s = with_table s (m s.world s.table)

  -- A method of the manifest. A method of several sessions writes in one of them alone, so a fault
  -- in between leaves what a fault at the beginning or at the end does.
  unfoldable pub on_manifest : {A : Type 0} → (sv.World → Action A) → Step A
  on_manifest m = do outside sv.open_session; a ← inside m; outside sv.close_session; pure a

  -- `manifest.get`
  read_row : String → sv.World → Action (Option BatchManifestRecord)
  read_row id w t = (ok (select_row id t), t)

  unfoldable pub manifest_get : String → Step (Option BatchManifestRecord)
  unfolding read_row
  manifest_get id = on_manifest (read_row id)

  pub set_serialized : Option SerializedParquet → Step (Unit {0})
  set_serialized o s = (ok tt, record s { serialized = o })

  -- `cleanup_serialized`
  pub unlink_serialized : Option SerializedParquet → Step (Unit {0})
  unlink_serialized none = pure tt
  unlink_serialized (some p) = outside (sv.unlink p.path)

  unfoldable pub cleanup_serialized : Step (Unit {0})
  unfolding unlink_serialized
  cleanup_serialized s = unlink_serialized s.serialized s

  module _ (st : Settings) where
    asleep : ℕ → Run → Run
    asleep d s = record s { world = sv.sleep d s.world }

    unfoldable pub retrying : {A : Type 0} → Step A → Step A
    unfolding asleep
    retrying m = retry_call asleep st.retry_policy m

    -- `_commit`
    unfoldable pub commit : CdcBatch → Step (Unit {0})
    commit b = retrying (outside (sv.commit_offset b.topic b.partition (next_offset b)))

    -- `existing_object.metadata.get("ingested_at")`, where an empty text is falsy
    nonempty : Option String → Option String
    nonempty none = none
    nonempty (some s) = if str_eq s "" then none else some s

    ingested_text : Option StoredObject → Option String
    unfolding nonempty
    ingested_text none = none
    ingested_text (some o) = nonempty (get "ingested_at" o.metadata)

    -- The first-ingestion time of an object that is there.
    stable_instant : sv.Instant → Option String → Step sv.Instant
    stable_instant created none = pure created
    stable_instant created (some text) = answer (sv.parse_instant text)

    pub serialize_batch : CdcBatch → sv.Instant → Step SerializedParquet
    unfolding set_serialized
    serialize_batch b ingested_at = do
      p ← outside (sv.serialize b ingested_at)
      set_serialized (some p)
      pure p

    pub put_once : CdcBatch → SerializedParquet → sv.Instant → Step StoredObject
    put_once b p ingested_at = retrying (
        outside (
          put_batch sv.backend st.bronze_bucket b p st.consumer_group
            (sv.utc_isoformat ingested_at)))

    -- The rebuild after a collision, with the winner's time; without one the collision is raised.
    rebuild : CdcBatch → Option String → Step (SerializedParquet × StoredObject)
    rebuild b none = raise immutable_collision
    rebuild b (some text) = do
      ingested_at ← answer (sv.parse_instant text)
      cleanup_serialized
      p ← serialize_batch b ingested_at
      stored ← put_once b p ingested_at
      pure (p, stored)

    on_collision : CdcBatch → Raised → Step (SerializedParquet × StoredObject)
    unfolding rebuild ingested_text
    on_collision b immutable_collision = do
      winner ← outside (stat_batch sv.backend st.bronze_bucket b)
      rebuild b (ingested_text winner)
    on_collision b e = raise e

    put_first : CdcBatch → SerializedParquet → sv.Instant → Step (SerializedParquet × StoredObject)
    put_first b p ingested_at = do stored ← put_once b p ingested_at; pure (p, stored)

    existing_row : Option BatchManifestRecord → Step BatchManifestRecord
    existing_row none = raise runtime_error
    existing_row (some r) = pure r

    -- The body of the outer `try`.
    unfoldable pub upload : CdcBatch → Step (Unit {0})
    unfolding existing_row ingested_text stable_instant serialize_batch put_first put_once
        on_collision
    upload b = do
      retrying (on_manifest (λ w. mark_serializing b.batch_id))
      found ← manifest_get b.batch_id
      row ← existing_row found
      existing ← retrying (outside (stat_batch sv.backend st.bronze_bucket b))
      ingested_at ← stable_instant (sv.stored_instant row.created_at) (ingested_text existing)
      p ← serialize_batch b ingested_at
      retrying (on_manifest (λ w. mark_uploading b.batch_id (sv.now w)))
      both ← rescue (put_first b p ingested_at) (on_collision b)
      retrying
          (on_manifest (λ w. mark_uploaded b.batch_id both.0.checksum_sha256 both.1.uri (sv.now w)))
      pure tt

    -- `except Exception as exc`, which raises it again
    fail_row : CdcBatch → Raised → Option BatchManifestRecord → Step (Unit {0})
    fail_row b e none = pure tt
    fail_row b e (some r) = if is_durable r.status then pure tt else (do
      on_manifest (λ w. mark_failed b.batch_id (sv.error_name e) (sv.error_text e))
      pure tt)

    unfoldable pub on_failure : CdcBatch → Raised → Step (Unit {0})
    unfolding fail_row
    on_failure b e = do current ← manifest_get b.batch_id; fail_row b e current; raise e

    on_commit_failure : CdcBatch → Raised → Step (Unit {0})
    on_commit_failure b e = do
      on_manifest (λ w. note_retryable_error b.batch_id "KAFKA_COMMIT_FAILED" (sv.error_text e))
      raise e

    result : CdcBatch → String → String → Bool → BatchProcessResult
    result b uri checksum replayed = record {
      batch_id = b.batch_id;
      object_uri = uri;
      checksum_sha256 = checksum;
      committed_offset = next_offset b;
      replayed = replayed;
    }

    -- The evidence of a row, where it has both parts.
    evidence : Option String → Option String → Step (String × String)
    evidence (some uri) (some checksum) = pure (uri, checksum)
    evidence _ _ = raise runtime_error

    confirmed : Option BatchManifestRecord → Step (String × String)
    unfolding evidence
    confirmed none = raise runtime_error
    confirmed (some r) =
        if status_eq r.status uploaded
        then evidence r.object_uri r.checksum_sha256
        else raise runtime_error

    -- A batch whose upload is not recorded.
    unfoldable pub process_new : CdcBatch → Step BatchProcessResult
    unfolding confirmed on_commit_failure set_serialized result
    process_new b = do
      set_serialized none
      finally (rescue (upload b) (on_failure b)) cleanup_serialized
      row ← manifest_get b.batch_id
      both ← confirmed row
      rescue (commit b) (on_commit_failure b)
      retrying (on_manifest (λ w. mark_committed b.batch_id (sv.now w)))
      pure (result b both.0 both.1 false)

    promote : CdcBatch → BatchStatus → Step (Unit {0})
    promote b status =
        if status_eq status uploaded
        then (do on_manifest (λ w. mark_committed b.batch_id (sv.now w)); pure tt)
        else pure tt

    -- A batch whose upload is recorded.
    unfoldable pub process_recorded : CdcBatch → BatchManifestRecord → Step BatchProcessResult
    unfolding evidence promote result
    process_recorded b row = do
      both ← evidence row.object_uri row.checksum_sha256
      retrying (outside (verify_batch sv.backend st.bronze_bucket b both.1 (some both.0)))
      commit b
      promote b row.status
      pure (result b both.0 both.1 true)

    process_row : CdcBatch → BatchManifestRecord → Step BatchProcessResult
    process_row b row = if is_durable row.status then process_recorded b row else process_new b

    unfoldable pub process : CdcBatch → Step BatchProcessResult
    unfolding process_row
    process b = do
      row ← retrying (on_manifest (λ w. register b st.consumer_group (sv.now_text w)))
      process_row b row

    -- `kafka_next >= record.offset_end + 1`, with -1 for a missing offset
    has_passed : BatchManifestRecord → Dict TopicPartitionKey ℕ → Bool
    has_passed r offsets =
        elim (get (record { topic = r.topic; partition = r.partition }) offsets) [
          | none ↦ false
          | some next ↦ leb (r.offset_end + 1) next
        ]

    unfoldable pub needs_repair : Dict TopicPartitionKey ℕ → BatchManifestRecord → Bool
    unfolding has_passed
    needs_repair offsets r = status_eq r.status uploaded && has_passed r offsets

    -- The loop, with the number of rows repaired so far.
    pub repair_rows : Dict TopicPartitionKey ℕ → List BatchManifestRecord → ℕ → Step ℕ
    repair_rows offsets [] repaired = pure repaired
    repair_rows offsets (r ∷ rs) repaired =
        let skip = repair_rows offsets rs repaired in
        let repair = (do
          on_manifest (λ w. mark_committed r.batch_id (sv.now w))
          repair_rows offsets rs (repaired + 1)) in
        if needs_repair offsets r then repair else skip

    read_recoverable : sv.World → Action (List BatchManifestRecord)
    read_recoverable w t = (ok (recoverable st.consumer_group t), t)

    unfoldable pub reconcile_committed_offsets : Dict TopicPartitionKey ℕ → Step ℕ
    unfolding read_recoverable repair_rows
    reconcile_committed_offsets offsets = do
      rows ← on_manifest read_recoverable
      repair_rows offsets rows 0
