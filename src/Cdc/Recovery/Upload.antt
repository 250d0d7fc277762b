-- ===== src/Cdc/Recovery/Upload.antt =====
-- The upload of a batch, on every path: a row becomes durable only after its object is stored.
use fintech_payments_data_pl.Prelude.{String, Option, none, some, rescue}
use fintech_payments_data_pl.Storage.{StoredObject}
use fintech_payments_data_pl.Cdc.Models.Batch.{CdcBatch}
use fintech_payments_data_pl.Cdc.Manifest.{BatchManifestRecord, Table, Action}
use fintech_payments_data_pl.Cdc.Manifest.Progress.{Progress, Moves-Progress}
use fintech_payments_data_pl.Cdc.Manifest.History.{
  mark_serializing-Moves, mark_uploading-Moves, mark_uploaded-Moves,
}
use fintech_payments_data_pl.Cdc.Manifest.Backed.{
  AllBacked, mark_serializing-AllBacked, mark_uploading-AllBacked, mark_uploaded-AllBacked,
}
use fintech_payments_data_pl.Cdc.Retry.{Raised, immutable_collision, runtime_error}
use fintech_payments_data_pl.Cdc.Retry.Laws.{IsPolicy}
use fintech_payments_data_pl.Cdc.Storage.{SerializedParquet}
use fintech_payments_data_pl.Cdc.Recovery.{
  Services, Settings, Run, on_manifest, retrying, manifest_get, stable_instant, put_first, rebuild,
  on_collision, existing_row, upload, ingested_text,
}
use fintech_payments_data_pl.Cdc.Recovery.Triples.{
  IsReliable, IsStable, Triple, Triple-bind, Triple-pure, Triple-raise, Triple-answer,
  Triple-weaken, Triple-rescue,
}
use fintech_payments_data_pl.Cdc.Recovery.Steps.{Triple-retrying}
use fintech_payments_data_pl.Cdc.Recovery.Calls.{Triple-method, Triple-manifest_get}
use fintech_payments_data_pl.Cdc.Recovery.World.{
  Triple-cleanup, Triple-serialize, Triple-stat, Triple-put_once,
}

module _ (sv : Services) (rel : IsReliable sv) (st : Settings) (policy : IsPolicy st.retry_policy)
    (b : CdcBatch) where
  module _ (P : Run sv → Type 0) (stable : IsStable sv rel P) where
    abbrev Placed : SerializedParquet × StoredObject → Run sv → Type 0
    Placed both s = P s × rel.Held s.world both.1.uri both.0.checksum_sha256

    Triple-put_first :
        (p : SerializedParquet) (at : sv.Instant) → Triple sv rel P (put_first sv st b p at) Placed
    unfolding put_first
    Triple-put_first p at =
        Triple-bind sv rel P _ _ (λ o s. P s × rel.Held s.world o.uri p.checksum_sha256) Placed
          (Triple-put_once sv rel st policy b P stable p at)
          λ o. Triple-pure sv rel _ (p, o) Placed (λ s h. h)

    Triple-rebuild : (text : Option String) → Triple sv rel P (rebuild sv st b text) Placed
    unfolding rebuild put_first
    Triple-rebuild none = Triple-raise sv rel P immutable_collision Placed
    Triple-rebuild (some text) =
        Triple-bind sv rel P _ _ (λ at. P) Placed
          (Triple-answer sv rel P (sv.parse_instant text) (λ at. P) (λ at s h. h))
          λ at.
            Triple-bind sv rel P _ _ (λ u. P) Placed (Triple-cleanup sv rel P stable)
              λ u.
                Triple-bind sv rel P _ _ (λ p. P) Placed
                  (Triple-serialize sv rel st policy b P stable at) λ p. Triple-put_first p at

    Triple-on_collision : (e : Raised) → Triple sv rel P (on_collision sv st b e) Placed
    unfolding on_collision
    Triple-on_collision immutable_collision =
        Triple-bind sv rel P _ _ (λ o. P) Placed (Triple-stat sv rel st policy b P stable)
          λ o. Triple-rebuild (ingested_text sv st o)
    Triple-on_collision _ = Triple-raise sv rel P _ Placed

    -- `put_immutable` with the rebuild after a collision.
    Triple-put :
        (p : SerializedParquet) (at : sv.Instant)
        → Triple sv rel P (rescue (put_first sv st b p at) (on_collision sv st b)) Placed
    Triple-put p at =
        Triple-rescue sv rel P _ _ Placed stable (Triple-put_first p at) Triple-on_collision

    -- A method of the manifest, retried.
    pub Triple-marked :
        {A : Type 0} (m : sv.World → Action A)
        → ((w : sv.World) (t : Table) → Progress t (m w t).1)
        → ((s : Run sv)
            → P s
            → AllBacked (rel.Held s.world) s.table
            → AllBacked (rel.Held s.world) (m s.world s.table).1)
        → Triple sv rel P (retrying sv st (on_manifest sv m)) (λ a. P)
    Triple-marked m forward keep =
        Triple-retrying sv rel st policy P _ (λ a. P) stable
          (Triple-method sv rel P stable m forward keep)

    Triple-existing_row :
        (o : Option BatchManifestRecord) → Triple sv rel P (existing_row sv st o) (λ r. P)
    unfolding existing_row
    Triple-existing_row none = Triple-raise sv rel P runtime_error (λ r. P)
    Triple-existing_row (some r) = Triple-pure sv rel P r (λ x. P) (λ s h. h)

    Triple-stable_instant :
        (created : sv.Instant) (text : Option String)
        → Triple sv rel P (stable_instant sv st created text) (λ at. P)
    unfolding stable_instant
    Triple-stable_instant created none = Triple-pure sv rel P created (λ at. P) (λ s h. h)
    Triple-stable_instant created (some text) =
        Triple-answer sv rel P (sv.parse_instant text) (λ at. P) (λ at s h. h)

    pub Triple-read : Triple sv rel P (manifest_get sv b.batch_id) (λ o. P)
    Triple-read =
        Triple-weaken sv rel P P _ _ (λ o. P) (λ s h. h) (λ o s h. h.0)
          (Triple-manifest_get sv rel P b.batch_id stable)

  module _ (P : Run sv → Type 0) (stable : IsStable sv rel P) where
    Placed-IsStable :
        (both : SerializedParquet × StoredObject) → IsStable sv rel (Placed P stable both)
    Placed-IsStable both s s' e h =
        (stable s s' e h.0, e.objects both.1.uri both.0.checksum_sha256 h.1)

    -- Whatever fails, an upload keeps what it found.
    pub Triple-upload : Triple sv rel P (upload sv st b) (λ u. P)
    unfolding upload
    Triple-upload =
        Triple-bind sv rel P _ _ (λ r. P) (λ u. P)
          (Triple-marked P stable _
            (λ w t. Moves-Progress _ t _ (mark_serializing-Moves b.batch_id t))
            (λ s p. mark_serializing-AllBacked (rel.Held s.world) b.batch_id s.table))
          λ r1.
            Triple-bind sv rel P _ _ (λ o. P) (λ u. P) (Triple-read P stable)
              λ found.
                Triple-bind sv rel P _ _ (λ r. P) (λ u. P) (Triple-existing_row P stable found)
                  λ row.
                    Triple-bind sv rel P _ _ (λ o. P) (λ u. P)
                      (Triple-retrying sv rel st policy P _ (λ o. P) stable
                        (Triple-stat sv rel st policy b P stable))
                      λ existing.
                        Triple-bind sv rel P _ _ (λ at. P) (λ u. P)
                          (Triple-stable_instant P stable (sv.stored_instant row.created_at)
                            (ingested_text sv st existing))
                          λ at.
                            Triple-bind sv rel P _ _ (λ p. P) (λ u. P)
                              (Triple-serialize sv rel st policy b P stable at)
                              λ p.
                                Triple-bind sv rel P _ _ (λ r. P) (λ u. P)
                                  (Triple-marked P stable _
                                    (λ w t.
                                      Moves-Progress _ t _
                                        (mark_uploading-Moves b.batch_id (sv.now w) t))
                                    (λ s h.
                                      mark_uploading-AllBacked (rel.Held s.world) b.batch_id
                                        (sv.now s.world) s.table))
                                  λ r2.
                                    Triple-bind sv rel P _ _ (Placed P stable) (λ u. P)
                                      (Triple-put P stable p at)
                                      λ both.
                                        Triple-bind sv rel (Placed P stable both) _ _
                                          (λ r. Placed P stable both) (λ u. P)
                                          (Triple-marked (Placed P stable both)
                                            (Placed-IsStable both) _
                                            (λ w t. Moves-Progress _ t _ (
                                              mark_uploaded-Moves b.batch_id both.0.checksum_sha256
                                                both.1.uri (sv.now w) t))
                                            (λ s h.
                                              mark_uploaded-AllBacked (rel.Held s.world) b.batch_id
                                                both.0.checksum_sha256 both.1.uri (sv.now s.world)
                                                s.table h.1))
                                          λ r3. Triple-pure sv rel _ tt (λ u. P) (λ s h. h.0)
