-- ===== src/Cdc/Manifest/Safe.antt =====
-- How the table moves by the steps that the methods of the manifest are built from: an insertion, a read, a
-- transition.
use fintech_payments_data_pl.Prelude.{
  ℕ, String, ◌≡◌, refl, sym, ◌∙◌, ap, subst, true, Option, none, some, List, [], ◌∷◌, ◌++◌, Result,
  ok, err, arith, Option-cases, Bool-cases, inl, inr, ◌>>=◌, ◌≢◌, str_eq, if◌then◌else◌, ◌==◌,
  continue,
}
use fintech_payments_data_pl.Cdc.Models.{
  BatchStatus, collecting, serializing, uploading, uploaded, committed, failed,
}
use fintech_payments_data_pl.Cdc.Manifest.{
  BatchManifestRecord, Table, Action, ManifestError, unknown_batch, allowed, checksum_sha256,
  object_uri, error_code, error_message, upload_started_at, uploaded_at, committed_at, retry_count,
  select_row, row_count, require, transition, apply_transition, Assignment, assign_all,
}
use fintech_payments_data_pl.Cdc.Manifest.Methods.{is_durable}
use fintech_payments_data_pl.Cdc.Manifest.Progress.{
  Within, step, allowed-Next, Moves, Moves-refl, IsSafe, update_rows-Moves, Within-refl,
}

pub select_row-append :
    (id : String) (t : Table) (row : BatchManifestRecord)
    → select_row id (t ++ row ∷ []) ≡ (elim (select_row id t) [
      | none ↦ if str_eq row.batch_id id then some row else none
      | some r ↦ some r
    ])
unfolding select_row
select_row-append id [] row = refl
select_row-append id (r ∷ t) row = ground (arith, select_row-append id t row)

pub appended_row :
    (id : String) (t : Table) (row r : BatchManifestRecord)
    → select_row id t ≡ none
    → select_row id (t ++ row ∷ []) ≡ some r
    → row ≡ r
appended_row id t row r h k = ground (arith, select_row-append id t row)

pub append-Moves :
    (target : BatchStatus) (t : Table) (row : BatchManifestRecord)
    → row.status ≡ collecting
    → Moves target t (t ++ row ∷ [])
append-Moves target t row new = record {
  kept = λ id r h. (r, ground (arith, select_row-append id t row), Within-refl target r);
  fresh = λ id r h k.
      sym (ap (λ (x : BatchManifestRecord). x.status) (appended_row id t row r h k)) ∙ new;
}

pub require_absent :
    (id : String) (t : Table) → select_row id t ≡ none → require id t ≡ (err unknown_batch, t)
unfolding require
require_absent id t h = ground arith

pub require_found :
    (id : String) (t : Table) (r : BatchManifestRecord)
    → select_row id t ≡ some r
    → require id t ≡ (ok r, t)
unfolding require
require_found id t r h = ground arith

pub require-state : (id : String) (t : Table) → (require id t).1 ≡ t
require-state id t = elim (Option-cases (select_row id t)) [
  | inl absent ↦ rw (require_absent id t absent)
  | inr (r, found) ↦ rw (require_found id t r found)
]

-- A method that first reads its row.
pub require-Moves :
    {A : Type 0} (target : BatchStatus) (id : String) (k : BatchManifestRecord → Action A)
    (t : Table)
    → ((r : BatchManifestRecord) → select_row id t ≡ some r → Moves target t (k r t).1)
    → Moves target t ((require id >>= k) t).1
require-Moves target id k t h = elim (Option-cases (select_row id t)) [
  | inl absent ↦ rw (require_absent id t absent) (Moves-refl target t)
  | inr (r, found) ↦ rw (require_found id t r found) (h r found)
]

-- The new rows that a transition to `target` writes.
abbrev pub written : BatchStatus → List Assignment → BatchManifestRecord → BatchManifestRecord
written target updates r = assign_all updates (record r { status = target })

pub apply_transition-Moves :
    (id : String) (current target : BatchStatus) (updates : List Assignment) (t : Table)
    → ((r : BatchManifestRecord) → (written target updates r).batch_id ≡ r.batch_id)
    → IsSafe target current (written target updates)
    → Moves target t (apply_transition id current target updates t).1
unfolding apply_transition
apply_transition-Moves id current target updates t same safe =
    elim (Bool-cases (row_count id current t == 1)) [
      | inl one ↦ rw one (update_rows-Moves target id current (written target updates) t same safe)
      | inr more ↦ rw more (Moves-refl target t)
    ]

-- An action that is followed by a read.
pub then_require-state :
    {A : Type 0} (id : String) (r : Result ManifestError A × Table)
    → (continue r.0 (λ _. require id) r.1).1 ≡ r.1
then_require-state id (ok a, t) = require-state id t
then_require-state id (err e, t) = refl

-- The updates of a method are safe at every status that may lead to its target.
abbrev pub IsSafeTransition : BatchStatus → List Assignment → Type 0
IsSafeTransition target updates =
    ((r : BatchManifestRecord) → (written target updates r).batch_id ≡ r.batch_id)
    × ((current : BatchStatus)
        → allowed current target ≡ true
        → IsSafe target current (written target updates))

pub transition-Moves :
    (id : String) (target : BatchStatus) (updates : List Assignment) (t : Table)
    → IsSafeTransition target updates
    → Moves target t (transition id target updates t).1
unfolding transition
transition-Moves id target updates t (same, safe) = require-Moves target id _ t λ r found.
    elim (Bool-cases (allowed r.status target)) [
      | inl may ↦ rw may (
          rw (then_require-state id (apply_transition id r.status target updates t))
            (apply_transition-Moves id r.status target updates t same (safe r.status may)))
      | inr no_step ↦ rw no_step (Moves-refl target t)
    ]

pub one_step :
    (r : BatchManifestRecord) (current target : BatchStatus)
    → r.status ≡ current
    → allowed current target ≡ true
    → Within target r.status target
one_step r current target e may =
    step (allowed-Next r.status target (subst (λ s. allowed s target ≡ true) (sym e) may)) refl

-- From a durable status the only step is to COMMITTED.
pub not_durable :
    (r : BatchManifestRecord) (current target : BatchStatus)
    → allowed current target ≡ true
    → r.status ≡ current
    → is_durable r.status ≡ true
    → target ≢ committed
    → ⊥
not_durable r current target may e h ne = ground arith

pub serializing_safe : IsSafeTransition serializing []
unfolding assign_all
serializing_safe = (
  λ r. refl,
  λ current may r e. record {
    leads = one_step r current serializing e may;
    batch_id = refl;
    consumer_group = refl;
    topic = refl;
    partition = refl;
    offset_start = refl;
    offset_end = refl;
    checksum = λ h. absurd (not_durable r current serializing may e h (λ k. cc));
    uri = λ h. absurd (not_durable r current serializing may e h (λ k. cc));
  },
)

pub uploading_safe : (now : ℕ) → IsSafeTransition uploading (upload_started_at now ∷ [])
unfolding assign_all
uploading_safe now = (
  λ r. refl,
  λ current may r e. record {
    leads = one_step r current uploading e may;
    batch_id = refl;
    consumer_group = refl;
    topic = refl;
    partition = refl;
    offset_start = refl;
    offset_end = refl;
    checksum = λ h. absurd (not_durable r current uploading may e h (λ k. cc));
    uri = λ h. absurd (not_durable r current uploading may e h (λ k. cc));
  },
)

pub uploaded_safe :
    (checksum uri : Option String) (now : ℕ)
    → IsSafeTransition uploaded (
        checksum_sha256 checksum
        ∷ object_uri uri
        ∷ uploaded_at now
        ∷ error_code none
        ∷ error_message none
        ∷ [])
unfolding assign_all
uploaded_safe checksum uri now = (
  λ r. refl,
  λ current may r e. record {
    leads = one_step r current uploaded e may;
    batch_id = refl;
    consumer_group = refl;
    topic = refl;
    partition = refl;
    offset_start = refl;
    offset_end = refl;
    checksum = λ h. absurd (not_durable r current uploaded may e h (λ k. cc));
    uri = λ h. absurd (not_durable r current uploaded may e h (λ k. cc));
  },
)

pub failed_safe :
    (code message : Option String) (retries : ℕ)
    → IsSafeTransition failed (error_code code ∷ error_message message ∷ retry_count retries ∷ [])
unfolding assign_all
failed_safe code message retries = (
  λ r. refl,
  λ current may r e. record {
    leads = one_step r current failed e may;
    batch_id = refl;
    consumer_group = refl;
    topic = refl;
    partition = refl;
    offset_start = refl;
    offset_end = refl;
    checksum = λ h. absurd (not_durable r current failed may e h (λ k. cc));
    uri = λ h. absurd (not_durable r current failed may e h (λ k. cc));
  },
)

pub committed_safe :
    (now : ℕ)
    → IsSafeTransition committed (committed_at now ∷ error_code none ∷ error_message none ∷ [])
unfolding assign_all
committed_safe now = (
  λ r. refl,
  λ current may r e. record {
    leads = one_step r current committed e may;
    batch_id = refl;
    consumer_group = refl;
    topic = refl;
    partition = refl;
    offset_start = refl;
    offset_end = refl;
    checksum = λ h. refl;
    uri = λ h. refl;
  },
)
