-- ===== src/Cdc/Recovery/Calls.antt =====
-- What the processor's calls establish of its batch, as facts that every later state keeps.
use mathlib.Core.List.{Mem, mem-append_right, mem-cons_self}
use fintech_payments_data_pl.Prelude.{
  ◌+◌, String, ◌≡◌, refl, sym, ◌∙◌, ap, subst, true, Option, none, some, some_inj, Result, ok, err,
}
use fintech_payments_data_pl.Cdc.Models.Batch.{CdcBatch, next_offset}
use fintech_payments_data_pl.Cdc.Manifest.{BatchManifestRecord, Table, Action, register, select_row}
use fintech_payments_data_pl.Cdc.Manifest.Methods.{is_durable}
use fintech_payments_data_pl.Cdc.Manifest.Progress.{
  Progress, Progress-refl, Moves-Progress, Leads-durable, Advances, Advances-refl, Advances-trans,
}
use fintech_payments_data_pl.Cdc.Manifest.History.{register-Moves}
use fintech_payments_data_pl.Cdc.Manifest.Registration.{IsRowOf, register-ok}
use fintech_payments_data_pl.Cdc.Manifest.Backed.{AllBacked, register-AllBacked}
use fintech_payments_data_pl.Cdc.Retry.{Raised}
use fintech_payments_data_pl.Cdc.Retry.Laws.{IsPolicy}
use fintech_payments_data_pl.Cdc.Recovery.{
  Services, Settings, Run, outside, on_manifest, manifest_get, read_row, commit,
}
use fintech_payments_data_pl.Cdc.Recovery.Triples.{
  Commit, Covers, IsReliable, IsStable, Yields, Triple, Triple-keep,
}
use fintech_payments_data_pl.Cdc.Recovery.Steps.{
  written-Extends, committed_Extends, Triple-on_manifest, Triple-retrying,
}

-- The row has the batch's coordinates.
pub record Matches (b : CdcBatch) (r : BatchManifestRecord) : Type 0 where
  pub topic : r.topic ≡ b.topic
  pub partition : r.partition ≡ b.partition
  pub offset_end : r.offset_end ≡ b.offset_end

-- The request that the processor makes of Kafka for a batch.
abbrev pub offset_of : CdcBatch → Commit
offset_of b = record { topic = b.topic; partition = b.partition; next_offset = next_offset b }

IsRowOf-Matches :
    (b : CdcBatch) (group : String) (r : BatchManifestRecord) → IsRowOf b group r → Matches b r
IsRowOf-Matches b group r h = record {
  topic = h.topic;
  partition = h.partition;
  offset_end = h.offset_end;
}

Matches-later :
    (b : CdcBatch) (r r' : BatchManifestRecord) → Advances r r' → Matches b r → Matches b r'
Matches-later b r r' a m = record {
  topic = a.topic ∙ m.topic;
  partition = a.partition ∙ m.partition;
  offset_end = a.offset_end ∙ m.offset_end;
}

module _ (sv : Services) (rel : IsReliable sv) where
  -- The row was read; the batch's row is a later version of it.
  abbrev pub Seen : String → BatchManifestRecord → Run sv → Type 0
  Seen id r s = (r' : BatchManifestRecord) × (select_row id s.table ≡ some r') × Advances r r'

  pub Seen-IsStable : (id : String) (r : BatchManifestRecord) → IsStable sv rel (Seen id r)
  Seen-IsStable id r s s' e (x, found, a) =
      let (y, later, b) = e.rows.kept id x found in (y, later, Advances-trans a b)

  -- The batch has a row, with its coordinates.
  abbrev pub Registered : CdcBatch → Run sv → Type 0
  Registered b s =
      (r : BatchManifestRecord) × (select_row b.batch_id s.table ≡ some r) × Matches b r

  pub Registered-IsStable : (b : CdcBatch) → IsStable sv rel (Registered b)
  Registered-IsStable b s s' e (r, found, m) =
      let (y, later, a) = e.rows.kept b.batch_id r found in (y, later, Matches-later b r y a m)

  -- The batch's row is durable.
  abbrev pub Recorded : CdcBatch → Run sv → Type 0
  Recorded b s =
      (r : BatchManifestRecord) × (select_row b.batch_id s.table ≡ some r)
      × Matches b r
      × (is_durable r.status ≡ true)

  pub Recorded-IsStable : (b : CdcBatch) → IsStable sv rel (Recorded b)
  Recorded-IsStable b s s' e (r, found, m, d) =
      let (y, later, a) = e.rows.kept b.batch_id r found in
      (y, later, Matches-later b r y a m, Leads-durable a.leads d)

  -- A durable row that was read makes the batch recorded.
  pub Seen-Recorded :
      (b : CdcBatch) (r : BatchManifestRecord) (s : Run sv)
      → is_durable r.status ≡ true
      → Seen b.batch_id r s
      → Registered b s
      → Recorded b s
  Seen-Recorded b r s d (x, found, a) (y, same, m) =
      let e : x ≡ y = some_inj (sym found ∙ same) in
      (x, found, subst (Matches b) (sym e) m, Leads-durable a.leads d)

  module _ {A : Type 0} (P : Run sv → Type 0) (stable : IsStable sv rel P) (m : sv.World → Action A)
      (forward : (w : sv.World) (t : Table) → Progress t (m w t).1)
      (keep : (s : Run sv)
        → P s
        → AllBacked (rel.Held s.world) s.table
        → AllBacked (rel.Held s.world) (m s.world s.table).1) where
    -- A method of the manifest of which only the table's change matters.
    pub Triple-method : Triple sv rel P (on_manifest sv m) (λ a. P)
    Triple-method =
        Triple-on_manifest sv rel P m (λ a. P) stable (λ a. stable) (λ s p. forward s.world s.table)
          keep
          (λ s a p e.
            stable s (record s { table = (m s.world s.table).1 })
              (written-Extends sv rel s (m s.world s.table).1 (forward s.world s.table) (keep s p))
              p)

  abbrev pub Read : String → Option BatchManifestRecord → Run sv → Type 0
  Read id none s = Unit
  Read id (some r) s = Seen id r s

  pub Read-IsStable : (id : String) (o : Option BatchManifestRecord) → IsStable sv rel (Read id o)
  Read-IsStable id none s s' e h = tt
  Read-IsStable id (some r) s s' e h = Seen-IsStable id r s s' e h

  Read-now :
      (id : String) (t : Table) (o : Option BatchManifestRecord) (s : Run sv)
      → s.table ≡ t
      → select_row id t ≡ o
      → Read id o s
  Read-now id t none s e found = tt
  Read-now id t (some r) s e found = (r, ap (select_row id) e ∙ found, Advances-refl r)

  pub Triple-manifest_get :
      (P : Run sv → Type 0) (id : String)
      → IsStable sv rel P
      → Triple sv rel P (manifest_get sv id) (λ o s. P s × Read id o s)
  unfolding manifest_get read_row
  Triple-manifest_get P id stable = Triple-keep sv rel P _ (Read id) stable (
      Triple-on_manifest sv rel P (read_row sv id) (Read id) stable (Read-IsStable id)
        (λ s p. Progress-refl s.table) (λ s p h. h) (λ s o p e. Read-now id s.table o s refl cc))

  Registered-now :
      (b : CdcBatch) (group now : String) (s : Run sv) (r : BatchManifestRecord)
      → let x = register b group now s.table in
        x.0 ≡ ok r
        → Seen b.batch_id r (record s { table = x.1 }) × Registered b (record s { table = x.1 })
  Registered-now b group now s r e =
      let x = register b group now s.table in
      let (found, same, added) = register-ok b group now s.table r x.1 (ap (λ y. (y, x.1)) e) in
      ((r, found, Advances-refl r), (r, found, IsRowOf-Matches b group r same))

  pub Triple-register :
      (b : CdcBatch) (group : String)
      → Triple sv rel
          (λ s. Unit)
          (on_manifest sv (λ w. register b group (sv.now_text w)))
          (λ r s. Seen b.batch_id r s × Registered b s)
  Triple-register b group =
      Triple-on_manifest sv rel (λ s. Unit) _ (λ r s. Seen b.batch_id r s × Registered b s)
        (λ s s' e p. tt)
        (λ r s s' e p. (Seen-IsStable b.batch_id r s s' e p.0, Registered-IsStable b s s' e p.1))
        (λ s p. Moves-Progress _ s.table _ (register-Moves b group (sv.now_text s.world) s.table))
        (λ s p h. register-AllBacked (rel.Held s.world) b group (sv.now_text s.world) s.table h)
        (λ s r p e. Registered-now b group (sv.now_text s.world) s r e)

  abbrev pub Offered : CdcBatch → Run sv → Type 0
  Offered b s = Mem (offset_of b) (rel.commits s.world)

  Recorded-Covers : (b : CdcBatch) (s : Run sv) → Recorded b s → Covers s.table (offset_of b)
  Recorded-Covers b s (r, found, m, d) =
      (b.batch_id, r, found, d, m.topic, m.partition, ap (λ x. x + 1) (sym m.offset_end))

  Offered-Yields :
      (b : CdcBatch) (s : Run sv) (r : Result Raised (Unit {0})) (w : sv.World)
      → sv.commit_offset b.topic b.partition (next_offset b) s.world ≡ (r, w)
      → Yields sv rel (λ u. Offered b) r (record s { world = w })
  Offered-Yields b s (ok u) w e =
      subst (Mem (offset_of b))
        (sym (rel.commit_done b.topic b.partition (next_offset b) s.world w e))
        (mem-append_right (rel.commits s.world) mem-cons_self)
  Offered-Yields b s (err x) w e = tt

  -- Kafka is asked to commit a recorded batch's offset alone.
  pub Triple-commit :
      (st : Settings) (b : CdcBatch)
      → IsPolicy st.retry_policy
      → Triple sv rel (Recorded b) (commit sv st b) (λ u. Offered b)
  unfolding commit outside
  Triple-commit st b policy =
      Triple-retrying sv rel st policy (Recorded b) _ (λ u. Offered b) (Recorded-IsStable b)
        (record {
          later = λ s p.
              committed_Extends sv rel s b.topic b.partition (next_offset b)
                (Recorded-Covers b s p);
          yields = λ s p.
              let x = sv.commit_offset b.topic b.partition (next_offset b) s.world in
              Offered-Yields b s x.0 x.1 refl;
        })
