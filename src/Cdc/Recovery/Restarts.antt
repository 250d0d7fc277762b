-- ===== src/Cdc/Recovery/Restarts.antt =====
-- The processor over many calls, failed ones and the repair after a restart included.
use fintech_payments_data_pl.Prelude.{
  ℕ, ◌+◌, ◌≡◌, sym, subst, List, [], ◌∷◌, All, Bool-cases, inl, inr,
}
use fintech_payments_data_pl.Prelude.Dict.{Dict}
use fintech_payments_data_pl.Cdc.Models.{TopicPartitionKey}
use fintech_payments_data_pl.Cdc.Models.Batch.{CdcBatch}
use fintech_payments_data_pl.Cdc.Manifest.{BatchManifestRecord, select_row}
use fintech_payments_data_pl.Cdc.Manifest.Progress.{Progress-refl, Moves-Progress}
use fintech_payments_data_pl.Cdc.Manifest.History.{mark_committed-Moves}
use fintech_payments_data_pl.Cdc.Manifest.Backed.{AllBacked, mark_committed-AllBacked}
use fintech_payments_data_pl.Cdc.Retry.Laws.{IsPolicy}
use fintech_payments_data_pl.Cdc.Recovery.{
  Services, Settings, Run, process, needs_repair, repair_rows, read_recoverable,
  reconcile_committed_offsets,
}
use fintech_payments_data_pl.Cdc.Recovery.Triples.{
  Covers, IsReliable, IsSafe, Extends, Extends-refl, Extends-trans, Triple, Triple-bind,
  Triple-pure,
}
use fintech_payments_data_pl.Cdc.Recovery.Calls.{Triple-method}
use fintech_payments_data_pl.Cdc.Recovery.Safety.{process-Extends}

-- A call of the processor.
pub data Call : Type 0 where
  processing : CdcBatch → Call
  reconciling : Dict TopicPartitionKey ℕ → Call

module _ (sv : Services) (st : Settings) where
  perform : Call → Run sv → Run sv
  perform (processing b) s = (process sv st b s).1
  perform (reconciling offsets) s = (reconcile_committed_offsets sv st offsets s).1

  -- The state after a sequence of calls; an exception ends only its own call.
  pub perform_all : List Call → Run sv → Run sv
  unfolding perform
  perform_all [] s = s
  perform_all (c ∷ calls) s = perform_all calls (perform c s)

module _ (sv : Services) (rel : IsReliable sv) (st : Settings)
    (policy : IsPolicy st.retry_policy) where
  abbrev Always : Run sv → Type 0
  Always s = Unit

  Triple-repair_rows :
      (offsets : Dict TopicPartitionKey ℕ) (rows : List BatchManifestRecord) (n : ℕ)
      → Triple sv rel Always (repair_rows sv st offsets rows n) (λ k. Always)
  unfolding repair_rows
  Triple-repair_rows offsets [] n = Triple-pure sv rel Always n (λ k. Always) (λ s h. tt)
  Triple-repair_rows offsets (r ∷ rows) n = elim (Bool-cases (needs_repair sv st offsets r)) [
    | inl repair ↦ rw repair (
        Triple-bind sv rel Always _ _ (λ x. Always) (λ k. Always)
          (Triple-method sv rel Always (λ s s' e h. tt) _
            (λ w t. Moves-Progress _ t _ (mark_committed-Moves r.batch_id (sv.now w) t))
            (λ s h.
              mark_committed-AllBacked (rel.Held s.world) r.batch_id (sv.now s.world) s.table))
          (λ x. Triple-repair_rows offsets rows (n + 1)))
    | inr skip ↦ rw skip (Triple-repair_rows offsets rows n)
  ]

  Triple-reconcile :
      (offsets : Dict TopicPartitionKey ℕ)
      → Triple sv rel Always (reconcile_committed_offsets sv st offsets) (λ k. Always)
  unfolding reconcile_committed_offsets read_recoverable
  Triple-reconcile offsets =
      Triple-bind sv rel Always _ _ (λ rows. Always) (λ k. Always)
        (Triple-method sv rel Always (λ s s' e h. tt) _ (λ w. Progress-refl) (λ s h k. k))
        (λ rows. Triple-repair_rows offsets rows 0)

  perform-Extends : (c : Call) (s : Run sv) → Extends sv rel s (perform sv st c s)
  unfolding perform
  perform-Extends (processing b) s = process-Extends sv rel st policy b s
  perform-Extends (reconciling offsets) s = (Triple-reconcile offsets).later s tt

  perform_all-Extends :
      (calls : List Call) (s : Run sv) → Extends sv rel s (perform_all sv st calls s)
  unfolding perform_all
  perform_all-Extends [] s = Extends-refl sv rel s
  perform_all-Extends (c ∷ calls) s =
      Extends-trans sv rel s (perform sv st c s) (perform_all sv st calls (perform sv st c s))
        (perform-Extends c s) (perform_all-Extends calls (perform sv st c s))

  nothing_held : (s : Run sv) → s.table ≡ [] → rel.commits s.world ≡ [] → IsSafe sv rel s
  nothing_held s no_rows no_commits = record {
    backed =
        subst (AllBacked (rel.Held s.world)) (sym no_rows)
          (unfold select_row in λ id r h. absurd cc);
    covered = subst (All (Covers s.table)) (sym no_commits) tt;
  }

  -- From an empty manifest and no committed offset, after any sequence of calls of `process` and of
  -- `reconcile_committed_offsets`, returning or raising: every offset that Kafka was asked to commit
  -- is the one behind a batch whose row is uploaded or committed, and every such row has a URI and a
  -- checksum with which an object is held. It is relied on that an object which the storage has
  -- reported or stored stays, that `commit_offset` alone commits, and that the retry policy is one
  -- that its constructor accepts.
  pub perform_all-IsSafe :
      (calls : List Call) (s : Run sv)
      → s.table ≡ []
      → rel.commits s.world ≡ []
      → IsSafe sv rel (perform_all sv st calls s)
  perform_all-IsSafe calls s no_rows no_commits =
      (perform_all-Extends calls s).safe (nothing_held s no_rows no_commits)
