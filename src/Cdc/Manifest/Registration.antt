-- ===== src/Cdc/Manifest/Registration.antt =====
-- What `register` of the manifest returns, and what it does to the table.
use fintech_payments_data_pl.Prelude.{
  String, ◌≡◌, refl, sym, ◌∙◌, ap, subst, true, Option, none, some, some_inj, [], ◌∷◌, ◌++◌, ok,
  arith, Bool-cases, inl, inr, ◌⊎◌, err, eq_iff,
}
use fintech_payments_data_pl.Cdc.Models.{collecting}
use fintech_payments_data_pl.Cdc.Models.Batch.{CdcBatch, record_count}
use fintech_payments_data_pl.Cdc.Manifest.{
  BatchManifestRecord, Table, manifest_conflict, select_row, register, insert_or_confirm, confirm,
  new_row, violates, describes,
}
use fintech_payments_data_pl.Cdc.Manifest.Safe.{select_row-append}
use fintech_payments_data_pl.Cdc.Manifest.Results.{not_both}

-- A row is of a batch and a consumer group.
pub record IsRowOf (b : CdcBatch) (group : String) (r : BatchManifestRecord) : Type 0 where
  pub consumer_group : r.consumer_group ≡ group
  pub topic : r.topic ≡ b.topic
  pub partition : r.partition ≡ b.partition
  pub offset_start : r.offset_start ≡ b.offset_start
  pub offset_end : r.offset_end ≡ b.offset_end
  pub records : r.record_count ≡ record_count b
  pub schema : r.schema_version ≡ b.schema_version

pub describes-IsRowOf :
    (b : CdcBatch) (group : String) (r : BatchManifestRecord)
    → describes b group r ≡ true
    → IsRowOf b group r
unfolding describes
describes-IsRowOf b group r h = record {
  consumer_group = (eq_iff r.consumer_group group).0 (ground arith);
  topic = (eq_iff r.topic b.topic).0 (ground arith);
  partition = ground arith;
  offset_start = ground arith;
  offset_end = ground arith;
  records = ground arith;
  schema = (eq_iff r.schema_version b.schema_version).0 (ground arith);
}

-- What a registration that returns `r` has done to the table `t`: nothing when the id was there,
-- and otherwise it added one row, at the beginning of its lifecycle.
abbrev pub Added : String → BatchManifestRecord → Table → Table → Type 0
Added id r t t' =
    ((select_row id t ≡ some r) × (t' ≡ t))
    ⊎ ((select_row id t ≡ none) × (r.status ≡ collecting) × (t' ≡ t ++ r ∷ []))

confirmed :
    (b : CdcBatch) (group : String) (before t : Table) (o : Option BatchManifestRecord)
    (r : BatchManifestRecord) (t' : Table)
    → confirm b group before o t ≡ (ok r, t')
    → (o ≡ some r) × (t ≡ t') × (describes b group r ≡ true)
unfolding confirm
confirmed b group before t none r t' h = absurd cc
confirmed b group before t (some x) r t' h = ground arith

inserted :
    (b : CdcBatch) (group now : String) (t : Table)
    → select_row b.batch_id t ≡ none
    → select_row b.batch_id (t ++ new_row b group now ∷ []) ≡ some (new_row b group now)
unfolding new_row
inserted b group now t absent =
    ground
      (arith, select_row-append b.batch_id t (new_row b group now), eq_iff b.batch_id b.batch_id)

inserted-Registered :
    (b : CdcBatch) (group now : String) (t : Table) (o : Option BatchManifestRecord)
    (r : BatchManifestRecord) (t' : Table)
    → select_row b.batch_id t ≡ o
    → insert_or_confirm b group now o t ≡ (ok r, t')
    → (select_row b.batch_id t' ≡ some r) × IsRowOf b group r × Added b.batch_id r t t'
unfolding insert_or_confirm
inserted-Registered b group now t (some x) r t' found h =
    let (same, table, d) = confirmed b group t t (some x) r t' h in
    (
      subst (λ u. select_row b.batch_id u ≡ some r) table (found ∙ same),
      describes-IsRowOf b group r d,
      inl (found ∙ same, sym table),
    )
inserted-Registered b group now t none r t' absent h =
    elim (Bool-cases (violates (new_row b group now) t)) [
      | inl refused ↦
          let raised : insert_or_confirm b group now none t ≡ (err manifest_conflict, t) =
            rw refused refl in
          absurd (not_both raised h)
      | inr fits ↦
          let row = new_row b group now in
          let t2 = t ++ row ∷ [] in
          let goes : insert_or_confirm b group now none t
              ≡ confirm b group t (select_row b.batch_id t2) t2 =
            rw fits refl in
          let (same, table, d) = confirmed b group t t2 _ r t' (sym goes ∙ h) in
          let is_row : row ≡ r = some_inj (sym (inserted b group now t absent) ∙ same) in
          (
            subst (λ u. select_row b.batch_id u ≡ some r) table same,
            describes-IsRowOf b group r d,
            inr (
              absent,
              subst (λ (x : BatchManifestRecord). x.status ≡ collecting) is_row
                  (unfold new_row in refl),
              sym table ∙ ap (λ x. t ++ x ∷ []) is_row,
            ),
          )
    ]

-- When `register` returns a row, it is the stored row of the batch's id, and it has the consumer
-- group and the batch's topic, partition, offsets, number of records and schema version. It is the row
-- that was there, and then the table is as it was; or the id was not there, and the table has this
-- one more row, whose status is COLLECTING.
pub register-ok :
    (b : CdcBatch) (group now : String) (t : Table) (r : BatchManifestRecord) (t' : Table)
    → register b group now t ≡ (ok r, t')
    → (select_row b.batch_id t' ≡ some r) × IsRowOf b group r × Added b.batch_id r t t'
unfolding register
register-ok b group now t r t' h =
    inserted-Registered b group now t (select_row b.batch_id t) r t' refl h
