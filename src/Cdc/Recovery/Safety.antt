-- ===== src/Cdc/Recovery/Safety.antt =====
-- The processor keeps its state safe on every path: what it commits to Kafka is recorded and stored.
use mathlib.Core.List.{Mem}
use fintech_payments_data_pl.Prelude.{
  String, ◌≡◌, refl, sym, ◌∙◌, subst, true, false, Option, none, some, some_inj, ok, Bool-cases,
  inl, inr,
}
use fintech_payments_data_pl.Cdc.Models.{BatchStatus, uploaded}
use fintech_payments_data_pl.Cdc.Models.Batch.{CdcBatch}
use fintech_payments_data_pl.Cdc.Manifest.{BatchManifestRecord, status_eq, select_row}
use fintech_payments_data_pl.Cdc.Manifest.Methods.{is_durable, mark_committed}
use fintech_payments_data_pl.Cdc.Manifest.Progress.{Leads-durable, Moves-Progress, status_eq→eq}
use fintech_payments_data_pl.Cdc.Manifest.History.{
  mark_committed-Moves, mark_failed-Moves, note_retryable_error-Moves,
}
use fintech_payments_data_pl.Cdc.Manifest.Backed.{
  mark_committed-AllBacked, mark_failed-AllBacked, note_retryable_error-AllBacked,
}
use fintech_payments_data_pl.Cdc.Retry.{Raised, runtime_error}
use fintech_payments_data_pl.Cdc.Retry.Laws.{IsPolicy}
use fintech_payments_data_pl.Cdc.Recovery.{
  Services, Settings, Run, on_manifest, cleanup_serialized, fail_row, on_failure, on_commit_failure,
  evidence, confirmed, process_new, promote, process_recorded, process_row, process,
  BatchProcessResult, result, commit,
}
use fintech_payments_data_pl.Cdc.Recovery.Triples.{
  IsReliable, IsSafe, Extends, IsStable, Yields, Triple, Triple-bind, Triple-pure, Triple-raise,
  Triple-weaken, Triple-keep, Triple-rescue, Triple-finally,
}
use fintech_payments_data_pl.Cdc.Recovery.Steps.{Triple-retrying}
use fintech_payments_data_pl.Cdc.Recovery.Calls.{
  Registered, Registered-IsStable, Recorded-IsStable, Seen-IsStable, Read-IsStable, Seen-Recorded,
  offset_of, Recorded, Seen, Read, Offered, Triple-method, Triple-manifest_get, Triple-register,
  Triple-commit,
}
use fintech_payments_data_pl.Cdc.Recovery.Upload.{Triple-upload, Triple-read}
use fintech_payments_data_pl.Cdc.Recovery.World.{
  Triple-set_serialized, Triple-cleanup, Triple-verify,
}

module _ (sv : Services) (rel : IsReliable sv) (st : Settings) (policy : IsPolicy st.retry_policy)
    (b : CdcBatch) where
  module _ (P : Run sv → Type 0) (stable : IsStable sv rel P) where
    Triple-fail_row :
        (e : Raised) (o : Option BatchManifestRecord)
        → Triple sv rel P (fail_row sv st b e o) (λ u. P)
    unfolding fail_row
    Triple-fail_row e none = Triple-pure sv rel P tt (λ u. P) (λ s h. h)
    Triple-fail_row e (some r) = elim (Bool-cases (is_durable r.status)) [
      | inl durable ↦ rw durable (Triple-pure sv rel P tt (λ u. P) (λ s h. h))
      | inr open_row ↦ rw open_row (
          Triple-bind sv rel P _ _ (λ x. P) (λ u. P)
            (Triple-method sv rel P stable _
              (λ w t.
                Moves-Progress _ t _
                  (mark_failed-Moves b.batch_id (sv.error_name e) (sv.error_text e) t))
              (λ s h.
                mark_failed-AllBacked (rel.Held s.world) b.batch_id (sv.error_name e)
                  (sv.error_text e) s.table))
            (λ x. Triple-pure sv rel P tt (λ u. P) (λ s h. h)))
    ]

    Triple-on_failure : (e : Raised) → Triple sv rel P (on_failure sv st b e) (λ u. P)
    unfolding on_failure
    Triple-on_failure e =
        Triple-bind sv rel P _ _ (λ o. P) (λ u. P) (Triple-read sv rel st policy b P stable)
          λ current.
            Triple-bind sv rel P _ _ (λ u. P) (λ u. P) (Triple-fail_row e current)
              λ u. Triple-raise sv rel P e (λ u. P)

    -- The mark after the commit.
    Triple-mark_committed :
        Triple sv rel P (on_manifest sv (λ w. mark_committed b.batch_id (sv.now w))) (λ r. P)
    Triple-mark_committed =
        Triple-method sv rel P stable _
          (λ w t. Moves-Progress _ t _ (mark_committed-Moves b.batch_id (sv.now w) t))
          (λ s h. mark_committed-AllBacked (rel.Held s.world) b.batch_id (sv.now s.world) s.table)

    Triple-promote : (status : BatchStatus) → Triple sv rel P (promote sv st b status) (λ u. P)
    unfolding promote
    Triple-promote status = elim (Bool-cases (status_eq status uploaded)) [
      | inl up ↦ rw up (
          Triple-bind sv rel P _ _ (λ r. P) (λ u. P) Triple-mark_committed
            (λ r. Triple-pure sv rel P tt (λ u. P) (λ s h. h)))
      | inr done ↦ rw done (Triple-pure sv rel P tt (λ u. P) (λ s h. h))
    ]

  -- The row has been read and has the evidence.
  abbrev Shown : String × String → Run sv → Type 0
  Shown both s =
      (r : BatchManifestRecord) × Seen sv rel b.batch_id r s
      × (is_durable r.status ≡ true)
      × (r.object_uri ≡ some both.0)
      × (r.checksum_sha256 ≡ some both.1)

  Triple-evidence :
      (r : BatchManifestRecord) (uri sum : Option String)
      → is_durable r.status ≡ true
      → r.object_uri ≡ uri
      → r.checksum_sha256 ≡ sum
      → Triple sv rel (Seen sv rel b.batch_id r) (evidence sv st uri sum) Shown
  unfolding evidence
  Triple-evidence r (some uri) (some sum) d u c =
      Triple-pure sv rel _ (uri, sum) Shown (λ s h. (r, h, d, u, c))
  Triple-evidence r (some uri) none d u c = Triple-raise sv rel _ runtime_error Shown
  Triple-evidence r none sum d u c = Triple-raise sv rel _ runtime_error Shown

  is_uploaded-durable :
      (r : BatchManifestRecord) → status_eq r.status uploaded ≡ true → is_durable r.status ≡ true
  is_uploaded-durable r h =
      subst (λ x. is_durable x ≡ true) (sym (status_eq→eq r.status uploaded h)) refl

  Triple-confirmed :
      (o : Option BatchManifestRecord)
      → Triple sv rel (Read sv rel b.batch_id o) (confirmed sv st o) Shown
  unfolding confirmed
  Triple-confirmed none = Triple-raise sv rel _ runtime_error Shown
  Triple-confirmed (some r) = elim (Bool-cases (status_eq r.status uploaded)) [
    | inl up ↦
        rw up
          (Triple-evidence r r.object_uri r.checksum_sha256 (is_uploaded-durable r up) refl refl)
    | inr other ↦ rw other (Triple-raise sv rel _ runtime_error Shown)
  ]

  Shown-IsStable : (both : String × String) → IsStable sv rel (Shown both)
  Shown-IsStable both s s' e (r, seen, d, u, c) =
      (r, Seen-IsStable sv rel b.batch_id r s s' e seen, d, u, c)

  -- The batch is recorded with the evidence.
  abbrev Evident : String × String → Run sv → Type 0
  Evident both s = Recorded sv rel b s × Shown both s

  Evident-IsStable : (both : String × String) → IsStable sv rel (Evident both)
  Evident-IsStable both s s' e h =
      (Recorded-IsStable sv rel b s s' e h.0, Shown-IsStable both s s' e h.1)

  Shown-Evident :
      (both : String × String) (s : Run sv) → Registered sv rel b s → Shown both s → Evident both s
  Shown-Evident both s reg (r, seen, d, u, c) =
      (Seen-Recorded sv rel b r s d seen reg, (r, seen, d, u, c))

  abbrev Known : Option BatchManifestRecord → Run sv → Type 0
  Known o s = Registered sv rel b s × Read sv rel b.batch_id o s

  Known-IsStable : (o : Option BatchManifestRecord) → IsStable sv rel (Known o)
  Known-IsStable o s s' e h =
      (Registered-IsStable sv rel b s s' e h.0, Read-IsStable sv rel b.batch_id o s s' e h.1)

  Triple-confirmed_row :
      (o : Option BatchManifestRecord) → Triple sv rel (Known o) (confirmed sv st o) Evident
  Triple-confirmed_row o =
      Triple-weaken sv rel (Known o) (Known o) _ (λ both s. Known o s × Shown both s) Evident
        (λ s h. h) (λ both s h. Shown-Evident both s h.0.0 h.1)
        (Triple-keep sv rel (Known o) _ Shown (Known-IsStable o) (
          Triple-weaken sv rel (Known o) (Read sv rel b.batch_id o) _ Shown Shown (λ s h. h.1)
            (λ both s h. h) (Triple-confirmed o)))

  -- The offset is committed too.
  abbrev Closed : String × String → Run sv → Type 0
  Closed both s = Evident both s × Offered sv rel b s

  Closed-IsStable : (both : String × String) → IsStable sv rel (Closed both)
  Closed-IsStable both s s' e h = (Evident-IsStable both s s' e h.0, e.offsets _ h.1)

  Triple-commit-Evident :
      (both : String × String) → Triple sv rel (Evident both) (commit sv st b) (λ u. Closed both)
  Triple-commit-Evident both =
      Triple-keep sv rel (Evident both) _ (λ u. Offered sv rel b) (Evident-IsStable both)
        (Triple-weaken sv rel (Evident both) (Recorded sv rel b) _ (λ u. Offered sv rel b)
          (λ u. Offered sv rel b) (λ s h. h.0) (λ u s h. h) (Triple-commit sv rel st b policy))

  Triple-on_commit_failure :
      (both : String × String) (e : Raised)
      → Triple sv rel (Evident both) (on_commit_failure sv st b e) (λ u. Closed both)
  unfolding on_commit_failure
  Triple-on_commit_failure both e =
      Triple-bind sv rel (Evident both) _ _ (λ r. Evident both) (λ u. Closed both)
        (Triple-method sv rel (Evident both) (Evident-IsStable both) _
          (λ w t. Moves-Progress _ t _ (
            note_retryable_error-Moves uploaded b.batch_id "KAFKA_COMMIT_FAILED" (sv.error_text e)
              t))
          (λ s h.
            note_retryable_error-AllBacked (rel.Held s.world) b.batch_id "KAFKA_COMMIT_FAILED"
              (sv.error_text e) s.table))
        (λ r. Triple-raise sv rel (Evident both) e (λ u. Closed both))

  -- What a returned result says.
  abbrev Finished : BatchProcessResult → Run sv → Type 0
  Finished res s = Closed (res.object_uri, res.checksum_sha256) s

  cleaned : Triple sv rel (λ s. Unit) (cleanup_serialized sv) (λ u s. Unit)
  cleaned = Triple-cleanup sv rel (λ s. Unit) (λ s s' e h. tt)

  Triple-process_new : Triple sv rel (Registered sv rel b) (process_new sv st b) Finished
  unfolding process_new result
  Triple-process_new =
      let R : Run sv → Type 0 = Registered sv rel b in
      let stable : IsStable sv rel R = Registered-IsStable sv rel b in
      Triple-bind sv rel R _ _ (λ u. R) Finished (Triple-set_serialized sv rel R none stable)
        λ u.
          Triple-bind sv rel R _ _ (λ u. R) Finished
            (Triple-finally sv rel R _ _ (λ u. R) (λ u. stable)
              (Triple-rescue sv rel R _ _ (λ u. R) stable
                (Triple-upload sv rel st policy b R stable) (Triple-on_failure R stable))
              cleaned)
            λ u1.
              Triple-bind sv rel R _ _ Known Finished
                (Triple-manifest_get sv rel R b.batch_id stable)
                λ o.
                  Triple-bind sv rel (Known o) _ _ Evident Finished (Triple-confirmed_row o) λ both.
                    Triple-bind sv rel (Evident both) _ _ (λ u. Closed both) Finished
                      (Triple-rescue sv rel (Evident both) _ _ (λ u. Closed both)
                        (Evident-IsStable both) (Triple-commit-Evident both)
                        (Triple-on_commit_failure both))
                      λ u2.
                        Triple-bind sv rel (Closed both) _ _ (λ r. Closed both) Finished
                          (Triple-retrying sv rel st policy (Closed both) _ (λ r. Closed both)
                            (Closed-IsStable both)
                            (Triple-mark_committed (Closed both) (Closed-IsStable both)))
                          λ r.
                            Triple-pure sv rel (Closed both) (result sv st b both.0 both.1 false)
                              Finished (λ s h. h)

  Triple-process_recorded :
      (r : BatchManifestRecord)
      → is_durable r.status ≡ true
      → Triple sv rel
          (λ s. Seen sv rel b.batch_id r s × Registered sv rel b s)
          (process_recorded sv st b r)
          Finished
  unfolding process_recorded result
  Triple-process_recorded r durable =
      Triple-bind sv rel _ _ _ Evident Finished
        (Triple-weaken sv rel _ (Known (some r)) _ (λ both s. Known (some r) s × Shown both s)
          Evident (λ s h. (h.1, h.0)) (λ both s h. Shown-Evident both s h.0.0 h.1)
          (Triple-keep sv rel (Known (some r)) _ Shown (Known-IsStable (some r)) (
            Triple-weaken sv rel (Known (some r)) (Seen sv rel b.batch_id r) _ Shown Shown
              (λ s h. h.1) (λ both s h. h)
              (Triple-evidence r r.object_uri r.checksum_sha256 durable refl refl))))
        λ both.
          Triple-bind sv rel (Evident both) _ _ (λ o. Evident both) Finished
            (Triple-retrying sv rel st policy (Evident both) _ (λ o. Evident both)
              (Evident-IsStable both)
              (Triple-verify sv rel st policy b (Evident both) (Evident-IsStable both) both.1
                (some both.0)))
            λ o.
              Triple-bind sv rel (Evident both) _ _ (λ u. Closed both) Finished
                (Triple-commit-Evident both)
                λ u.
                  Triple-bind sv rel (Closed both) _ _ (λ u. Closed both) Finished
                    (Triple-promote (Closed both) (Closed-IsStable both) r.status)
                    λ u1.
                      Triple-pure sv rel (Closed both) (result sv st b both.0 both.1 true) Finished
                        (λ s h. h)

  Triple-process_row :
      (r : BatchManifestRecord)
      → Triple sv rel
          (λ s. Seen sv rel b.batch_id r s × Registered sv rel b s)
          (process_row sv st b r)
          Finished
  unfolding process_row
  Triple-process_row r = elim (Bool-cases (is_durable r.status)) [
    | inl durable ↦ rw durable (Triple-process_recorded r durable)
    | inr open_row ↦ rw open_row (
        Triple-weaken sv rel _ (Registered sv rel b) _ Finished Finished (λ s h. h.1) (λ x s h. h)
          Triple-process_new)
  ]

  Triple-process : Triple sv rel (λ s. Unit) (process sv st b) Finished
  unfolding process
  Triple-process =
      Triple-bind sv rel (λ s. Unit) _ _ (λ r s. Seen sv rel b.batch_id r s × Registered sv rel b s)
        Finished
        (Triple-retrying sv rel st policy (λ s. Unit) _
          (λ r s. Seen sv rel b.batch_id r s × Registered sv rel b s) (λ s s' e h. tt)
          (Triple-register sv rel b st.consumer_group))
        Triple-process_row

  -- From any state, whether `process` returns or raises: rows go forward, nothing is lost, and a
  -- safe state stays safe.
  pub process-Extends : (s : Run sv) → Extends sv rel s (process sv st b s).1
  process-Extends s = Triple-process.later s tt

  -- The evidence of a row in a safe state is held.
  Shown-Held :
      (s : Run sv)
      → IsSafe sv rel s
      → (both : String × String) → Shown both s
      → Offered sv rel b s
      → ((r : BatchManifestRecord) × (select_row b.batch_id s.table ≡ some r)
          × (is_durable r.status ≡ true)
          × (r.object_uri ≡ some both.0)
          × (r.checksum_sha256 ≡ some both.1))
        × rel.Held s.world both.0 both.1
        × Mem (offset_of b) (rel.commits s.world)
  Shown-Held s safe both (r, (x, found, a), d, u, c) offered =
      let durable = Leads-durable a.leads d in
      let uri = a.uri d ∙ u in
      let sum = a.checksum d ∙ c in
      let (uri1, sum1, u1, c1, held) = safe.backed b.batch_id x found durable in
      (
        (x, found, durable, uri, sum),
        subst (λ v. rel.Held s.world v both.1) (some_inj (sym u1 ∙ uri))
            (subst (rel.Held s.world uri1) (some_inj (sym c1 ∙ sum)) held),
        offered,
      )

  -- When `process` returns from a safe state, the batch has a durable row with its coordinates and
  -- with the result's URI and checksum, the object is held at that URI with that checksum, and the
  -- batch's offset is among the committed ones.
  pub process-ok :
      (s : Run sv) (res : BatchProcessResult) (s' : Run sv)
      → IsSafe sv rel s
      → process sv st b s ≡ (ok res, s')
      → ((r : BatchManifestRecord) × (select_row b.batch_id s'.table ≡ some r)
          × (is_durable r.status ≡ true)
          × (r.object_uri ≡ some res.object_uri)
          × (r.checksum_sha256 ≡ some res.checksum_sha256))
        × rel.Held s'.world res.object_uri res.checksum_sha256
        × Mem (offset_of b) (rel.commits s'.world)
  process-ok s res s' safe e =
      let closed = subst (λ x. Yields sv rel Finished x.0 x.1) e (Triple-process.yields s tt) in
      let after = subst (λ x. IsSafe sv rel x.1) e ((process-Extends s).safe safe) in
      Shown-Held s' after (res.object_uri, res.checksum_sha256) closed.0.1 closed.1
