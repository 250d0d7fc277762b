-- ===== src/Cdc/Tests.antt =====
-- Runs of the CDC consumer's parts on small inputs, and each theorem about them at an input.
use fintech_payments_data_pl.Prelude.{
  ℕ, ◌<◌, ◌≡◌, refl, String, false, none, some, List, [], ◌∷◌, ok, err, arith, length, some_inj,
  Bool-cases, inl, inr, subst,
}
use fintech_payments_data_pl.Prelude.Dict.{get}
use mathlib.Core.List.{Perm}
use fintech_payments_data_pl.Cdc.Models.{BronzeEvent, TopicPartitionKey, key_eq, key_eq_iff, key_Eq}
use fintech_payments_data_pl.Cdc.Models.Batch.{CdcBatch, build_batch, batch_of, not_contiguous}
use fintech_payments_data_pl.Cdc.Models.Batch.Laws.{
  IsRun, IsBatchOf, build_batch-run, build_batch-ok,
}
use fintech_payments_data_pl.Cdc.Batching.{
  PendingPartition, PartitionBatcher, add, flush_due, queue, new_batcher,
}
use fintech_payments_data_pl.Cdc.Batching.Spec.{IsValid, IsQueue, Serves}
use fintech_payments_data_pl.Cdc.Batching.Add.{add-Serves}
use fintech_payments_data_pl.Cdc.Batching.Empties.{flush_due_empties}
use fintech_payments_data_pl.Cdc.Batching.Session.{
  Call, adding, due, fed, session, DeliversAll, session-DeliversAll, empty_batcher,
  empty_batcher-IsValid,
}

-- A hash for the tests: the identity's own text.
abbrev pub plain : String → String
plain s = s

abbrev pub event_at : ℕ → String → BronzeEvent
event_at offset date = record {
  event_id = "e";
  entity_name = "refunds";
  operation = "c";
  is_snapshot = false;
  is_deleted = false;
  is_tombstone = false;
  event_key_json = none;
  before_json = none;
  after_json = some "{}";
  source_metadata_json = none;
  source_lsn = none;
  source_tx_id = none;
  source_ts_ms = none;
  connector_ts_ms = none;
  kafka_topic = "t";
  kafka_partition = 0;
  kafka_offset = offset;
  kafka_message_ts_ms = none;
  ingested_at = 0;
  event_date = date;
  schema_version = "1";
  raw_event_json = none;
}

abbrev two_events : List BronzeEvent
two_events = event_at 5 "d" ∷ event_at 6 "d" ∷ []

build_batch_sorts :
    build_batch plain (event_at 6 "d" ∷ event_at 5 "d" ∷ [])
    ≡ ok (batch_of plain (event_at 5 "d") (event_at 6 "d" ∷ []))
unfolding build_batch
build_batch_sorts = refl

build_batch_gap : build_batch plain (event_at 5 "d" ∷ event_at 7 "d" ∷ []) ≡ err not_contiguous
unfolding build_batch
build_batch_gap = refl

two_events-IsRun : IsRun two_events
two_events-IsRun = (
  record {
    offset = refl;
    topic = refl;
    partition = refl;
    entity = refl;
    date = refl;
    schema = refl;
  },
  tt,
)

build_batch-run_example :
    (b : CdcBatch) × (build_batch plain two_events ≡ ok b) × IsBatchOf two_events b
build_batch-run_example = build_batch-run plain two_events (λ e. cc) two_events-IsRun

abbrev sorted_batch : CdcBatch
sorted_batch = batch_of plain (event_at 5 "d") (event_at 6 "d" ∷ [])

build_batch-ok_example :
    Perm sorted_batch.events (event_at 6 "d" ∷ event_at 5 "d" ∷ [])
    × IsBatchOf sorted_batch.events sorted_batch
build_batch-ok_example =
    build_batch-ok plain (event_at 6 "d" ∷ event_at 5 "d" ∷ []) sorted_batch build_batch_sorts

add-Serves_example :
    Serves
      (empty_batcher 2 10)
      (event_at 5 "d" ∷ [])
      (add plain (event_at 5 "d") (some 1) 0 (empty_batcher 2 10))
add-Serves_example =
    add-Serves plain (event_at 5 "d") (some 1) 0 (empty_batcher 2 10)
      (empty_batcher-IsValid 2 10 (omega arith))

abbrev calls : List Call
calls =
    adding (event_at 5 "d") (some 1) 0
    ∷ adding (event_at 6 "d") (some 2) 0
    ∷ adding (event_at 7 "e") (some 3) 0
    ∷ due (some 13) 0
    ∷ adding (event_at 8 "e") (some 14) 0
    ∷ []

session-DeliversAll_example :
    DeliversAll 2 (fed calls) (session plain calls 20 (empty_batcher 2 10))
session-DeliversAll_example =
    session-DeliversAll plain 2 10 calls 20 (empty_batcher 2 10) (unfold new_batcher in refl)

abbrev refunds_key : TopicPartitionKey
refunds_key = record { topic = "t"; partition = 0 }

abbrev first_waiting : PendingPartition
first_waiting = record { events = event_at 5 "d" ∷ []; first_seen_at = 1 }

first_waiting-IsQueue : IsQueue refunds_key first_waiting
first_waiting-IsQueue = record { nonempty = λ e. cc; run = tt; all_here = (refl, tt) }

abbrev waiting : PartitionBatcher
waiting = record {
  batch_size = 2;
  flush_interval = 10;
  pending = (refunds_key, first_waiting) ∷ [];
}

waiting-IsValid : IsValid waiting
unfolding get
waiting-IsValid = record {
  positive = omega arith;
  queues = λ k p e. elim (Bool-cases (key_eq refunds_key k)) [
    | inl same ↦
        let key = (key_eq_iff refunds_key k).0 same in
        let value : first_waiting ≡ p = some_inj (ground (arith, e, same)) in
        subst (λ j. IsQueue j p) key
          (subst (λ q. IsQueue refunds_key q) value first_waiting-IsQueue)
    | inr other ↦ absurd (ground (arith, e, other))
  ];
  bounded = λ k p e. elim (Bool-cases (key_eq refunds_key k)) [
    | inl same ↦
        let value : first_waiting ≡ p = some_inj (ground (arith, e, same)) in
        subst (λ q. length q.events < 2) value (omega arith)
    | inr other ↦ absurd (ground (arith, e, other))
  ];
}

-- Ten ticks after its first event the queue is flushed.
flush_due_empties_example : queue refunds_key (flush_due plain (some 11) 0 waiting).1 ≡ []
flush_due_empties_example =
    flush_due_empties plain (some 11) 0 waiting refunds_key first_waiting waiting-IsValid
      (unfold get in refl) (omega arith)
