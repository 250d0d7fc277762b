-- ===== src/Cdc/Batching.antt =====
-- src/ingestion/cdc_consumer/batching.py: one bounded queue of contiguous events per partition.
-- A method is an action on the batcher. `clock` is what `datetime.now(UTC)` reads during the call.
pub mod Spec
pub mod Flush
pub mod Add
pub mod Empties
pub mod Session
use Prim.Native.String.{compare as compare_text}
use text.Mathlib.Text.{is_eq, is_lt}
use fintech_payments_data_pl.Prelude.{
  ℕ, zero, suc, ◌+◌, String, Bool, false, not, ◌&&◌, ◌||◌, Option, none, some, List, [], ◌∷◌, ◌++◌,
  length, take, drop, Result, ok, err, Exec, pure, ◌>>=◌, ◌==◌, ltb, leb, str_eq, if◌then◌else◌,
}
use fintech_payments_data_pl.Prelude.Dict.{Dict, get, put, del, keys}
use fintech_payments_data_pl.Cdc.Models.{BronzeEvent, TopicPartitionKey, topic_partition, key_Eq}
use fintech_payments_data_pl.Cdc.Models.Batch.{
  CdcBatch, BatchError, unknown_key, pop_from_empty, unfinished, build_batch,
}

pub record PendingPartition : Type 0 where
  pub events : List BronzeEvent
  pub first_seen_at : ℕ

pub record PartitionBatcher : Type 0 where
  pub batch_size : ℕ
  pub flush_interval : ℕ
  pub pending : Dict TopicPartitionKey PendingPartition

pub data InitError : Type 0 where
  batch_size_not_positive flush_interval_not_positive : InitError

-- `__init__`; the interval is in microseconds
unfoldable pub new_batcher : ℕ → ℕ → Result InitError PartitionBatcher
new_batcher batch_size flush_interval =
    if batch_size == 0
    then err batch_size_not_positive
    else if flush_interval == 0
    then err flush_interval_not_positive
    else ok (record { batch_size = batch_size; flush_interval = flush_interval; pending = [] })

abbrev pub Action : Type 0 → Type 0
Action A = Exec BatchError PartitionBatcher A

-- `now or datetime.now(UTC)`
abbrev pub observed : Option ℕ → ℕ → ℕ
observed none clock = clock
observed (some now) clock = now

-- The queue of the key after `events` were popped from it.
unfoldable pub keep_rest :
    TopicPartitionKey → List BronzeEvent → ℕ → PartitionBatcher → PartitionBatcher
keep_rest key [] observed_at s = record s { pending = del key s.pending }
keep_rest key (e ∷ rest) observed_at s = record s {
  pending = put key (record { events = e ∷ rest; first_seen_at = observed_at }) s.pending;
}

-- `boundary_changed` of `add`
unfoldable pub boundary_changed : BronzeEvent → BronzeEvent → Bool
boundary_changed event previous =
    not (event.kafka_offset == previous.kafka_offset + 1)
    || not (str_eq event.entity_name previous.entity_name)
    || not (str_eq event.event_date previous.event_date)
    || not (str_eq event.schema_version previous.schema_version)

-- `events[-1]`, where there is one
unfoldable pub get_last? : List BronzeEvent → Option BronzeEvent
get_last? [] = none
get_last? (e ∷ []) = some e
get_last? (e ∷ x ∷ es) = get_last? (x ∷ es)

-- `partition is not None and partition.events`, and then the test on the last event
unfoldable pub is_closed_by : BronzeEvent → Option PendingPartition → Bool
unfolding get_last? boundary_changed
is_closed_by event none = false
is_closed_by event (some p) = elim (get_last? p.events) [
  | none ↦ false
  | some previous ↦ boundary_changed event previous
]

-- `if partition is None: ...` and `partition.events.append(event)`
unfoldable pub append_event :
    TopicPartitionKey
    → BronzeEvent
    → ℕ
    → Option PendingPartition
    → PartitionBatcher
    → PartitionBatcher
append_event key event now none s = record s {
  pending = put key (record { events = event ∷ []; first_seen_at = now }) s.pending;
}
append_event key event now (some p) s = record s {
  pending = put key (record p { events = p.events ++ event ∷ [] }) s.pending;
}

-- The events that wait for a key.
abbrev pub queue : TopicPartitionKey → PartitionBatcher → List BronzeEvent
queue key s = elim (get key s.pending) [ none ↦ [] | some p ↦ p.events ]

-- `sorted(due, key=lambda item: (item.topic, item.partition))`
unfoldable pub key_leb : TopicPartitionKey → TopicPartitionKey → Bool
key_leb a b =
    is_lt (compare_text a.topic b.topic)
    || (is_eq (compare_text a.topic b.topic) && leb a.partition b.partition)

unfoldable pub insert_key : TopicPartitionKey → List TopicPartitionKey → List TopicPartitionKey
insert_key k [] = k ∷ []
insert_key k (j ∷ ks) = let rest = insert_key k ks in if key_leb k j then k ∷ j ∷ ks else j ∷ rest

unfoldable pub sort_keys : List TopicPartitionKey → List TopicPartitionKey
unfolding key_leb insert_key
sort_keys [] = []
sort_keys (k ∷ ks) = insert_key k (sort_keys ks)

-- The keys of `flush_due`, in the order of the dict.
unfoldable pub due_keys : ℕ → ℕ → Dict TopicPartitionKey PendingPartition → List TopicPartitionKey
due_keys interval now [] = []
due_keys interval now ((key, p) ∷ rest) =
    let more = due_keys interval now rest in
    if not (length p.events == 0) && leb (p.first_seen_at + interval) now then key ∷ more else more

-- The sum of the lengths of the queues.
count_events : Dict TopicPartitionKey PendingPartition → ℕ
count_events [] = 0
count_events ((key, p) ∷ rest) = length p.events + count_events rest

module _ (sha256 : String → String) where
  -- `_take`
  unfoldable pub take_batch : TopicPartitionKey → ℕ → ℕ → Action CdcBatch
  take_batch key count observed_at s = elim (get key s.pending) [
    | none ↦ (err unknown_key, s)
    | some p ↦
        if ltb (length p.events) count
        then (
          err pop_from_empty,
          record s { pending = put key (record p { events = [] }) s.pending },
        )
        else (
          build_batch sha256 (take count p.events),
          keep_rest key (drop count p.events) observed_at s,
        )
  ]

  unfoldable pub flush_partition : TopicPartitionKey → Option ℕ → ℕ → Action (List CdcBatch)
  unfolding take_batch keep_rest
  flush_partition key now clock s = elim (get key s.pending) [
    | none ↦ (ok [], s)
    | some p ↦
        if length p.events == 0
        then (ok [], s)
        else (do batch ← take_batch key (length p.events) (observed now clock); pure (batch ∷ [])) s
  ]

  unfoldable pub flush_partitions : List TopicPartitionKey → Option ℕ → ℕ → Action (List CdcBatch)
  flush_partitions [] now clock = pure []
  flush_partitions (key ∷ rest) now clock = do
    batches ← flush_partition key now clock
    more ← flush_partitions rest now clock
    pure (batches ++ more)

  unfoldable pub flush_all : Option ℕ → ℕ → Action (List CdcBatch)
  unfolding flush_partitions flush_partition keys
  flush_all now clock s = flush_partitions (keys s.pending) now clock s

  -- The `while` of `add`; a round takes `batch_size` events away, so the fuel is their number.
  unfoldable pub drain : ℕ → TopicPartitionKey → ℕ → Action (List CdcBatch)
  drain zero key observed_at s = (err unfinished, s)
  drain (suc fuel) key observed_at s = elim (get key s.pending) [
    | none ↦ (ok [], s)
    | some p ↦
        if leb s.batch_size (length p.events)
        then (do
          batch ← take_batch key s.batch_size observed_at
          more ← drain fuel key observed_at
          pure (batch ∷ more))
            s
        else (ok [], s)
  ]

  -- The first half of `add`: the closed batches, and the `partition` to append to.
  unfoldable pub close_boundary :
      TopicPartitionKey → BronzeEvent → ℕ → Action (List CdcBatch × Option PendingPartition)
  close_boundary key event clock s =
      if is_closed_by event (get key s.pending)
      then (do closed ← flush_partition key none clock; pure (closed, none)) s
      else (ok ([], get key s.pending), s)

  -- The second half of `add`.
  unfoldable pub append_and_drain :
      TopicPartitionKey → BronzeEvent → ℕ → Option PendingPartition → Action (List CdcBatch)
  append_and_drain key event observed_at partition s =
      let s' = append_event key event observed_at partition s in
      drain (length (queue key s') + 1) key observed_at s'

  unfoldable pub add : BronzeEvent → Option ℕ → ℕ → Action (List CdcBatch)
  add event now clock = do
    closed ← close_boundary (topic_partition event) event clock
    ready ← append_and_drain (topic_partition event) event (observed now clock) closed.1
    pure (closed.0 ++ ready)

  unfoldable pub flush_due : Option ℕ → ℕ → Action (List CdcBatch)
  unfolding due_keys sort_keys flush_partitions flush_partition
  flush_due now clock s =
      let observed_at = observed now clock in
      flush_partitions (sort_keys (due_keys s.flush_interval observed_at s.pending))
        (some observed_at) clock s

-- `pending_count`
pub pending_count : PartitionBatcher → ℕ
pending_count s = count_events s.pending
