-- ===== src/Cdc/Manifest/Results.antt =====
-- What the methods of the manifest return.
use Prim.Native.String.{count}
use fintech_payments_data_pl.Prelude.{
  ℕ, String, ◌≡◌, refl, sym, ◌∙◌, ap, subst, true, false, Option, none, some, List, [], ◌∷◌, Result,
  ok, err, arith, Option-cases, Bool-cases, inl, inr, eq_iff, if◌then◌else◌, ◌==◌,
}
use fintech_payments_data_pl.Cdc.Models.{BatchStatus, uploaded}
use fintech_payments_data_pl.Cdc.Models.Batch.{CdcBatch}
use fintech_payments_data_pl.Cdc.Manifest.{
  BatchManifestRecord, Table, ManifestError, unknown_batch, manifest_conflict, invalid_transition,
  concurrent_change, bad_checksum, allowed, select_row, is_target, update_rows, row_count,
  transition, apply_transition, Assignment, assign_all, register, describes, checksum_sha256,
  object_uri, error_code, error_message, uploaded_at,
}
use fintech_payments_data_pl.Cdc.Manifest.Methods.{
  is_durable, text_option_eq, same_evidence, mark_uploaded,
}
use fintech_payments_data_pl.Cdc.Manifest.Progress.{select_row-update_rows, changed_row}
use fintech_payments_data_pl.Cdc.Manifest.Safe.{written, require_absent, require_found}

pub select_row-id :
    (id : String) (t : Table) (r : BatchManifestRecord) → select_row id t ≡ some r → r.batch_id ≡ id
unfolding select_row
select_row-id id [] r h = cc
select_row-id id (x ∷ t) r h = ground (arith, eq_iff x.batch_id id, select_row-id id t r)

own_target :
    (id : String) (r : BatchManifestRecord) → r.batch_id ≡ id → is_target id r.status r ≡ true
unfolding is_target
own_target id r h = ground (arith, eq_iff r.batch_id id)

-- What a transition that returns has done: it read a row, the step is allowed, and the row that it
-- wrote is the one that it returns.
pub record Transitions (id : String) (target : BatchStatus) (updates : List Assignment) (t : Table)
    (r : BatchManifestRecord) (t' : Table) : Type 0 where
  pub before : BatchManifestRecord
  pub found : select_row id t ≡ some before
  pub step : allowed before.status target ≡ true
  pub wrote : r ≡ written target updates before
  pub stored : select_row id t' ≡ some r

updated_row :
    (id : String) (target : BatchStatus) (updates : List Assignment) (t : Table)
    (before : BatchManifestRecord)
    → ((x : BatchManifestRecord) → (written target updates x).batch_id ≡ x.batch_id)
    → select_row id t ≡ some before
    → select_row id (update_rows id before.status (written target updates) t)
      ≡ some (written target updates before)
updated_row id target updates t before same found =
    select_row-update_rows id id before.status (written target updates) t same
    ∙ ap (changed_row id before.status (written target updates)) found
    ∙ rw (own_target id before (select_row-id id t before found)) refl

-- A transition whose row has the status that was read, and that the lifecycle allows, is written.
pub transition_done :
    (id : String) (target : BatchStatus) (updates : List Assignment) (t : Table)
    (before : BatchManifestRecord)
    → ((x : BatchManifestRecord) → (written target updates x).batch_id ≡ x.batch_id)
    → select_row id t ≡ some before
    → allowed before.status target ≡ true
    → (row_count id before.status t == 1) ≡ true
    → transition id target updates t ≡ (
      ok (written target updates before),
      update_rows id before.status (written target updates) t,
    )
unfolding transition apply_transition
transition_done id target updates t before same found may one =
    let again =
      require_found id (update_rows id before.status (written target updates) t)
        (written target updates before) (updated_row id target updates t before same found) in
    rw (require_found id t before found) (rw may (rw one again))

transition_refused :
    (id : String) (target : BatchStatus) (updates : List Assignment) (t : Table)
    (before : BatchManifestRecord)
    → select_row id t ≡ some before
    → allowed before.status target ≡ false
    → transition id target updates t ≡ (err invalid_transition, t)
unfolding transition
transition_refused id target updates t before found no_step =
    rw (require_found id t before found) (rw no_step)

transition_missing :
    (id : String) (target : BatchStatus) (updates : List Assignment) (t : Table)
    → select_row id t ≡ none
    → transition id target updates t ≡ (err unknown_batch, t)
unfolding transition
transition_missing id target updates t absent = rw (require_absent id t absent)

transition_raced :
    (id : String) (target : BatchStatus) (updates : List Assignment) (t : Table)
    (before : BatchManifestRecord)
    → select_row id t ≡ some before
    → allowed before.status target ≡ true
    → (row_count id before.status t == 1) ≡ false
    → transition id target updates t ≡ (err concurrent_change, t)
unfolding transition apply_transition
transition_raced id target updates t before found may raced =
    rw (require_found id t before found) (rw may (rw raced))

pub not_both :
    {x : Result ManifestError BatchManifestRecord × Table} {e : ManifestError} {t t' : Table}
    {r : BatchManifestRecord}
    → x ≡ (err e, t)
    → x ≡ (ok r, t')
    → ⊥
not_both h k = ground arith

same_outcome :
    {r r' : BatchManifestRecord} {t t' : Table}
    → ◌≡◌ {A = Result ManifestError BatchManifestRecord × Table} (ok r, t) (ok r', t')
    → (r ≡ r') × (t ≡ t')
same_outcome h = (ground arith, ground arith)

pub transition-ok :
    (id : String) (target : BatchStatus) (updates : List Assignment) (t : Table)
    (r : BatchManifestRecord) (t' : Table)
    → ((x : BatchManifestRecord) → (written target updates x).batch_id ≡ x.batch_id)
    → transition id target updates t ≡ (ok r, t')
    → Transitions id target updates t r t'
unfolding transition
transition-ok id target updates t r t' same h = elim (Option-cases (select_row id t)) [
  | inl absent ↦ absurd (not_both (transition_missing id target updates t absent) h)
  | inr (before, found) ↦ elim (Bool-cases (allowed before.status target)) [
    | inr no_step ↦
        absurd (not_both (transition_refused id target updates t before found no_step) h)
    | inl may ↦ elim (Bool-cases (row_count id before.status t == 1)) [
      | inr raced ↦
          absurd (not_both (transition_raced id target updates t before found may raced) h)
      | inl one ↦
          let done = transition_done id target updates t before same found may one in
          let (row, table) = same_outcome (sym done ∙ h) in
          record {
            before = before;
            found = found;
            step = may;
            wrote = sym row;
            stored =
                subst (λ u. select_row id u ≡ some r) table
                  (subst
                    (λ x.
                      select_row id (update_rows id before.status (written target updates) t)
                      ≡ some x)
                    row (updated_row id target updates t before same found));
          }
    ]
  ]
]

text_option_eq→eq : (a b : Option String) → text_option_eq a b ≡ true → a ≡ b
text_option_eq→eq none none h = refl
text_option_eq→eq (some a) (some b) h = ap some ((eq_iff a b).0 h)
text_option_eq→eq none (some b) h = cc
text_option_eq→eq (some a) none h = cc

evidence :
    (checksum uri : String) (r : BatchManifestRecord)
    → same_evidence checksum uri r ≡ true
    → (r.checksum_sha256 ≡ some checksum) × (r.object_uri ≡ some uri)
unfolding same_evidence
evidence checksum uri r h = (
  text_option_eq→eq r.checksum_sha256 (some checksum) (ground arith),
  text_option_eq→eq r.object_uri (some uri) (ground arith),
)

-- The updates of `mark_uploaded`.
abbrev upload_updates : String → String → ℕ → List Assignment
upload_updates checksum uri now =
    checksum_sha256 (some checksum)
    ∷ object_uri (some uri)
    ∷ uploaded_at now
    ∷ error_code none
    ∷ error_message none
    ∷ []

uploaded_by_transition :
    (id checksum uri : String) (now : ℕ) (t : Table) (r : BatchManifestRecord) (t' : Table)
    → Transitions id uploaded (upload_updates checksum uri now) t r t'
    → (select_row id t' ≡ some r)
      × (is_durable r.status ≡ true)
      × (r.checksum_sha256 ≡ some checksum)
      × (r.object_uri ≡ some uri)
unfolding assign_all
uploaded_by_transition id checksum uri now t r t' d = (
  d.stored,
  ap (λ (x : BatchManifestRecord). is_durable x.status) d.wrote,
  ap (λ (x : BatchManifestRecord). x.checksum_sha256) d.wrote,
  ap (λ (x : BatchManifestRecord). x.object_uri) d.wrote,
)

-- When `mark_uploaded` returns a row, that row is the stored one, it is uploaded or committed, and
-- its checksum and URI are the ones given.
pub mark_uploaded-ok :
    (id checksum uri : String) (now : ℕ) (t : Table) (r : BatchManifestRecord) (t' : Table)
    → mark_uploaded id checksum uri now t ≡ (ok r, t')
    → (select_row id t' ≡ some r)
      × (is_durable r.status ≡ true)
      × (r.checksum_sha256 ≡ some checksum)
      × (r.object_uri ≡ some uri)
unfolding mark_uploaded
mark_uploaded-ok id checksum uri now t r t' h = elim (Bool-cases (count checksum == 64)) [
  | inr short ↦
      let raised : mark_uploaded id checksum uri now t ≡ (err bad_checksum, t) = rw short in
      absurd (not_both raised h)
  | inl long ↦ elim (Option-cases (select_row id t)) [
    | inl absent ↦
        let raised : mark_uploaded id checksum uri now t ≡ (err unknown_batch, t) =
          rw long (rw (require_absent id t absent)) in
        absurd (not_both raised h)
    | inr (before, found) ↦ elim (Bool-cases (is_durable before.status)) [
      | inr open_row ↦
          let goes : mark_uploaded id checksum uri now t
              ≡ transition id uploaded (upload_updates checksum uri now) t =
            rw long (rw (require_found id t before found) (rw open_row)) in
          uploaded_by_transition id checksum uri now t r t' (
            transition-ok id uploaded (upload_updates checksum uri now) t r t'
              (λ x. unfold assign_all in refl) (sym goes ∙ h))
      | inl durable ↦ elim (Bool-cases (same_evidence checksum uri before)) [
        | inr differs ↦
            let raised : mark_uploaded id checksum uri now t ≡ (err manifest_conflict, t) =
              rw long (rw (require_found id t before found) (rw durable (rw differs))) in
            absurd (not_both raised h)
        | inl same ↦
            let kept : mark_uploaded id checksum uri now t ≡ (ok before, t) =
              rw long (rw (require_found id t before found) (rw durable (rw same))) in
            let (row, table) = same_outcome (sym kept ∙ h) in
            let (sum, address) = evidence checksum uri before same in
            (
              subst (λ u. select_row id u ≡ some r) table
                  (subst (λ x. select_row id t ≡ some x) row found),
              subst (λ x. is_durable x.status ≡ true) row durable,
              subst (λ x. x.checksum_sha256 ≡ some checksum) row sum,
              subst (λ x. x.object_uri ≡ some uri) row address,
            )
      ]
    ]
  ]
]

-- The guarded `UPDATE` under interference: whatever table the second session of a transition
-- meets, it writes only where exactly one row has the identity and the status that were read.
pub apply_transition-ok :
    (id : String) (current target : BatchStatus) (updates : List Assignment) (t t' : Table)
    → apply_transition id current target updates t ≡ (ok tt, t')
    → (row_count id current t ≡ 1) × (t' ≡ update_rows id current (written target updates) t)
unfolding apply_transition
apply_transition-ok id current target updates t t' h = ground arith

-- A batch identity that is registered already is returned as it is, or refused; the table is left
-- alone either way.
pub register_again :
    (b : CdcBatch) (group now : String) (t : Table) (r : BatchManifestRecord)
    → select_row b.batch_id t ≡ some r
    → register b group now t ≡ (if describes b group r then ok r else err manifest_conflict, t)
unfolding register
register_again b group now t r found = ground arith
