-- ===== src/Cdc/Manifest/Backed.antt =====
-- The durable rows of the manifest have a URI and a checksum of which a given fact holds, and every
-- method keeps that; only `mark_uploaded` needs the fact, of the evidence that it writes.
use Prim.Native.String.{count}
use fintech_payments_data_pl.Prelude.{
  ℕ, ◌+◌, String, ◌≡◌, refl, sym, ◌∙◌, ap, subst, true, Option, none, some, List, [], ◌∷◌, ◌++◌,
  arith, Option-cases, Bool-cases, inl, inr, ◌>>=◌, pure, raise, if◌then◌else◌, ◌==◌,
}
use fintech_payments_data_pl.Cdc.Models.{
  BatchStatus, collecting, serializing, uploading, uploaded, committed, failed,
}
use fintech_payments_data_pl.Cdc.Models.Batch.{CdcBatch}
use fintech_payments_data_pl.Cdc.Manifest.{
  BatchManifestRecord, Table, Action, manifest_conflict, allowed, status_eq, safe_error,
  checksum_sha256, object_uri, error_code, error_message, uploaded_at, committed_at, retry_count,
  select_row, is_target, row_count, update_rows, require, transition, apply_transition, Assignment,
  assign_all, register, insert_or_confirm, confirm, new_row, violates, describes,
}
use fintech_payments_data_pl.Cdc.Manifest.Methods.{
  is_durable, is_past_serializing, is_past_uploading, same_evidence, mark_serializing,
  mark_uploading, mark_uploaded, mark_committed, mark_failed, note_retryable_error,
}
use fintech_payments_data_pl.Cdc.Manifest.Progress.{
  select_row-update_rows, changed, changed_row, target_status,
}
use fintech_payments_data_pl.Cdc.Manifest.Safe.{
  written, appended_row, select_row-append, require_absent, require_found, require-state,
  then_require-state,
}

nothing_some : {A : Type 0} {a : A} → none ≡ some a → ⊥
nothing_some h = cc

row_inj : {A : Type 0} {a b : A} → some a ≡ some b → a ≡ b
row_inj h = cc

collecting_durable : (s : BatchStatus) → s ≡ collecting → is_durable s ≡ true → ⊥
collecting_durable s h k = ground arith

kept_row :
    (id : String) (t : Table) (row x : BatchManifestRecord)
    → select_row id t ≡ some x
    → select_row id (t ++ row ∷ []) ≡ some x
kept_row id t row x h = ground (arith, select_row-append id t row)

module _ (Good : String → String → Type 0) where
  abbrev pub IsBacked : BatchManifestRecord → Type 0
  IsBacked r =
      is_durable r.status ≡ true
      → (uri sum : String) × (r.object_uri ≡ some uri)
        × (r.checksum_sha256 ≡ some sum)
        × Good uri sum

  abbrev pub AllBacked : Table → Type 0
  AllBacked t = (id : String) (r : BatchManifestRecord) → select_row id t ≡ some r → IsBacked r

  -- An update that keeps the rows with the status it asks for backed.
  abbrev KeepsBacked : BatchStatus → (BatchManifestRecord → BatchManifestRecord) → Type 0
  KeepsBacked current f =
      (r : BatchManifestRecord) → r.status ≡ current → IsBacked r → IsBacked (f r)

  changed-IsBacked :
      (id : String) (current : BatchStatus) (f : BatchManifestRecord → BatchManifestRecord)
      (r : BatchManifestRecord)
      → KeepsBacked current f
      → IsBacked r
      → IsBacked (changed id current f r)
  changed-IsBacked id current f r keep h = elim (Bool-cases (is_target id current r)) [
    | inl target ↦ rw target (keep r (target_status id current r target) h)
    | inr other ↦ rw other h
  ]

  update_rows-AllBacked :
      (id : String) (current : BatchStatus) (f : BatchManifestRecord → BatchManifestRecord)
      (t : Table)
      → ((r : BatchManifestRecord) → (f r).batch_id ≡ r.batch_id)
      → KeepsBacked current f
      → AllBacked t
      → AllBacked (update_rows id current f t)
  update_rows-AllBacked id current f t same keep h j r found =
      elim (Option-cases (select_row j t)) [
        | inl absent ↦ absurd (
            nothing_some (
              sym (
                select_row-update_rows j id current f t same ∙ ap (changed_row id current f) absent)
              ∙ found))
        | inr (x, before) ↦
            subst IsBacked
              (row_inj (
                sym (
                  select_row-update_rows j id current f t same
                  ∙ ap (changed_row id current f) before)
                ∙ found))
              (changed-IsBacked id current f x keep (h j x before))
      ]

  apply_transition-AllBacked :
      (id : String) (current target : BatchStatus) (updates : List Assignment) (t : Table)
      → ((r : BatchManifestRecord) → (written target updates r).batch_id ≡ r.batch_id)
      → KeepsBacked current (written target updates)
      → AllBacked t
      → AllBacked (apply_transition id current target updates t).1
  unfolding apply_transition
  apply_transition-AllBacked id current target updates t same keep h =
      elim (Bool-cases (row_count id current t == 1)) [
        | inl one ↦ rw one (update_rows-AllBacked id current (written target updates) t same keep h)
        | inr more ↦ rw more h
      ]

  require-AllBacked :
      {A : Type 0} (id : String) (k : BatchManifestRecord → Action A) (t : Table)
      → AllBacked t
      → ((r : BatchManifestRecord) → select_row id t ≡ some r → AllBacked (k r t).1)
      → AllBacked ((require id >>= k) t).1
  require-AllBacked id k t h next = elim (Option-cases (select_row id t)) [
    | inl absent ↦ rw (require_absent id t absent) h
    | inr (r, found) ↦ rw (require_found id t r found) (next r found)
  ]

  abbrev BackedUpdates : BatchStatus → List Assignment → Type 0
  BackedUpdates target updates =
      ((r : BatchManifestRecord) → (written target updates r).batch_id ≡ r.batch_id)
      × ((current : BatchStatus)
          → allowed current target ≡ true
          → KeepsBacked current (written target updates))

  transition-AllBacked :
      (id : String) (target : BatchStatus) (updates : List Assignment) (t : Table)
      → BackedUpdates target updates
      → AllBacked t
      → AllBacked (transition id target updates t).1
  unfolding transition
  transition-AllBacked id target updates t (same, keep) h = require-AllBacked id _ t h λ r found.
      elim (Bool-cases (allowed r.status target)) [
        | inl may ↦ rw may (
            rw (then_require-state id (apply_transition id r.status target updates t))
              (apply_transition-AllBacked id r.status target updates t same (keep r.status may) h))
        | inr no_step ↦ rw no_step h
      ]

  pub mark_serializing-AllBacked :
      (id : String) (t : Table) → AllBacked t → AllBacked (mark_serializing id t).1
  unfolding mark_serializing
  mark_serializing-AllBacked id t h = require-AllBacked id _ t h λ r found.
      elim (Bool-cases (is_past_serializing r.status)) [
        | inl past ↦ rw past h
        | inr before ↦ rw before (
            transition-AllBacked id serializing [] t
              (unfold assign_all in (λ r. refl, λ current may r e b d. cc)) h)
      ]

  pub mark_uploading-AllBacked :
      (id : String) (now : ℕ) (t : Table) → AllBacked t → AllBacked (mark_uploading id now t).1
  unfolding mark_uploading
  mark_uploading-AllBacked id now t h = require-AllBacked id _ t h λ r found.
      elim (Bool-cases (is_past_uploading r.status)) [
        | inl past ↦ rw past h
        | inr before ↦ rw before (
            transition-AllBacked id uploading _ t
              (unfold assign_all in (λ r. refl, λ current may r e b d. cc)) h)
      ]

  upload-BackedUpdates :
      (checksum uri : String) (now : ℕ)
      → Good uri checksum
      → BackedUpdates uploaded (
          checksum_sha256 (some checksum)
          ∷ object_uri (some uri)
          ∷ uploaded_at now
          ∷ error_code none
          ∷ error_message none
          ∷ [])
  unfolding assign_all
  upload-BackedUpdates checksum uri now good =
      (λ r. refl, λ current may r e b d. (uri, checksum, refl, refl, good))

  uploaded_branch-AllBacked :
      (id checksum uri : String) (now : ℕ) (t : Table) (r : BatchManifestRecord)
      → Good uri checksum
      → AllBacked t
      → AllBacked
          ((if is_durable r.status
              then (if same_evidence checksum uri r then pure r else raise manifest_conflict)
              else transition id uploaded (
                  checksum_sha256 (some checksum)
                  ∷ object_uri (some uri)
                  ∷ uploaded_at now
                  ∷ error_code none
                  ∷ error_message none
                  ∷ []))
            t).1
  uploaded_branch-AllBacked id checksum uri now t r good h =
      elim (Bool-cases (is_durable r.status)) [
        | inl durable ↦ rw durable (elim (Bool-cases (same_evidence checksum uri r)) [
          | inl same ↦ rw same h
          | inr differs ↦ rw differs h
        ])
        | inr open_row ↦
            rw open_row
              (transition-AllBacked id uploaded _ t (upload-BackedUpdates checksum uri now good) h)
      ]

  pub mark_uploaded-AllBacked :
      (id checksum uri : String) (now : ℕ) (t : Table)
      → Good uri checksum
      → AllBacked t
      → AllBacked (mark_uploaded id checksum uri now t).1
  unfolding mark_uploaded
  mark_uploaded-AllBacked id checksum uri now t good h = elim (Bool-cases (count checksum == 64)) [
    | inl long ↦ rw long (
        require-AllBacked id _ t h
          (λ r found. uploaded_branch-AllBacked id checksum uri now t r good h))
    | inr short ↦ rw short h
  ]

  only_uploaded :
      (current : BatchStatus) → allowed current committed ≡ true → is_durable current ≡ true
  only_uploaded current may = ground arith

  commit-BackedUpdates :
      (now : ℕ)
      → BackedUpdates committed (committed_at now ∷ error_code none ∷ error_message none ∷ [])
  unfolding assign_all
  commit-BackedUpdates now = (
    λ r. refl,
    λ current may r e b d. b (subst (λ s. is_durable s ≡ true) (sym e) (only_uploaded current may)),
  )

  pub mark_committed-AllBacked :
      (id : String) (now : ℕ) (t : Table) → AllBacked t → AllBacked (mark_committed id now t).1
  unfolding mark_committed
  mark_committed-AllBacked id now t h = require-AllBacked id _ t h λ r found.
      elim (Bool-cases (status_eq r.status committed)) [
        | inl done ↦ rw done h
        | inr before ↦
            rw before (transition-AllBacked id committed _ t (commit-BackedUpdates now) h)
      ]

  note-KeepsBacked :
      (current : BatchStatus) (code message : Option String) (retries : ℕ)
      → KeepsBacked current
          (assign_all (error_code code ∷ error_message message ∷ retry_count retries ∷ []))
  unfolding assign_all
  note-KeepsBacked current code message retries r e b d = b d

  note-batch_id :
      (code message : Option String) (retries : ℕ) (r : BatchManifestRecord)
      → (assign_all (error_code code ∷ error_message message ∷ retry_count retries ∷ []) r).batch_id
        ≡ r.batch_id
  unfolding assign_all
  note-batch_id code message retries r = refl

  pub note_retryable_error-AllBacked :
      (id code message : String) (t : Table)
      → AllBacked t
      → AllBacked (note_retryable_error id code message t).1
  unfolding note_retryable_error
  note_retryable_error-AllBacked id code message t h = require-AllBacked id _ t h λ r found.
      rw (require-state id _) (
        update_rows-AllBacked id r.status _ t
          (note-batch_id (some code) (some (safe_error message)) (r.retry_count + 1))
          (note-KeepsBacked r.status (some code) (some (safe_error message)) (r.retry_count + 1)) h)

  fail-BackedUpdates :
      (code message : Option String) (retries : ℕ)
      → BackedUpdates failed (error_code code ∷ error_message message ∷ retry_count retries ∷ [])
  unfolding assign_all
  fail-BackedUpdates code message retries = (λ r. refl, λ current may r e b d. cc)

  pub mark_failed-AllBacked :
      (id code message : String) (t : Table)
      → AllBacked t
      → AllBacked (mark_failed id code message t).1
  unfolding mark_failed
  mark_failed-AllBacked id code message t h = require-AllBacked id _ t h λ r found.
      elim (Bool-cases (is_durable r.status)) [
        | inl durable ↦ rw durable h
        | inr open_row ↦ rw open_row (elim (Bool-cases (status_eq r.status failed)) [
          | inl again ↦ rw again (note_retryable_error-AllBacked id code message t h)
          | inr first ↦ rw first (
              transition-AllBacked id failed _ t
                (fail-BackedUpdates (some code) (some (safe_error message)) (r.retry_count + 1)) h)
        ])
      ]

  -- A row that is collecting needs no evidence.
  append-AllBacked :
      (t : Table) (row : BatchManifestRecord)
      → row.status ≡ collecting
      → AllBacked t
      → AllBacked (t ++ row ∷ [])
  append-AllBacked t row new h id r found = elim (Option-cases (select_row id t)) [
    | inl absent ↦
        subst IsBacked (appended_row id t row r absent found)
          (λ d. absurd (collecting_durable row.status new d))
    | inr (x, before) ↦
        subst IsBacked (row_inj (sym (kept_row id t row x before) ∙ found)) (h id x before)
  ]

  confirm-AllBacked :
      (b : CdcBatch) (group : String) (before t : Table) (o : Option BatchManifestRecord)
      → AllBacked before
      → AllBacked t
      → AllBacked (confirm b group before o t).1
  unfolding confirm
  confirm-AllBacked b group before t none h k = h
  confirm-AllBacked b group before t (some r) h k = elim (Bool-cases (describes b group r)) [
    | inl same ↦ rw same k
    | inr differs ↦ rw differs h
  ]

  insert-AllBacked :
      (b : CdcBatch) (group now : String) (t : Table) (o : Option BatchManifestRecord)
      → AllBacked t
      → AllBacked (insert_or_confirm b group now o t).1
  unfolding insert_or_confirm
  insert-AllBacked b group now t (some r) h = confirm-AllBacked b group t t (some r) h h
  insert-AllBacked b group now t none h = elim (Bool-cases (violates (new_row b group now) t)) [
    | inl refused ↦ rw refused h
    | inr fits ↦
        let t' = t ++ new_row b group now ∷ [] in
        rw fits (
          confirm-AllBacked b group t t' (select_row b.batch_id t') h
            (append-AllBacked t (new_row b group now) (unfold new_row in refl) h))
  ]

  pub register-AllBacked :
      (b : CdcBatch) (group now : String) (t : Table)
      → AllBacked t
      → AllBacked (register b group now t).1
  register-AllBacked b group now t h =
      unfold register in insert-AllBacked b group now t (select_row b.batch_id t) h
