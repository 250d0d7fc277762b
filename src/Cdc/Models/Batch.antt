-- ===== src/Cdc/Models/Batch.antt =====
-- `CdcBatch`, its deterministic identity and `build_batch` of models.py. SHA-256 is a parameter.
pub mod Laws
use Prim.Native.String.{◌++◌ as str_append}
use fintech_payments_data_pl.Prelude.{
  ℕ, zero, suc, ◌+◌, String, Bool, true, false, not, ◌&&◌, ◌||◌, List, [], ◌∷◌, length, Result, ok,
  err, ◌==◌, leb, str_eq, if◌then◌else◌,
}
use fintech_payments_data_pl.Prelude.Text.{str}
use fintech_payments_data_pl.Cdc.Models.{BronzeEvent, topic_partition, key_eq}

pub record CdcBatch : Type 0 where
  pub batch_id : String
  pub topic : String
  pub partition : ℕ
  pub offset_start : ℕ
  pub offset_end : ℕ
  pub entity_name : String
  pub event_date : String
  pub schema_version : String
  pub events : List BronzeEvent

-- `next_offset` and `record_count`
abbrev pub next_offset : CdcBatch → ℕ
next_offset b = b.offset_end + 1

abbrev pub record_count : CdcBatch → ℕ
record_count b = length b.events

-- `any(...)`, and the flags that go into the object's metadata
abbrev any_event : (BronzeEvent → Bool) → List BronzeEvent → Bool
any_event p [] = false
any_event p (e ∷ es) = p e || any_event p es

abbrev pub contains_snapshot : CdcBatch → Bool
contains_snapshot b = any_event (λ e. e.is_snapshot) b.events

abbrev pub contains_delete : CdcBatch → Bool
contains_delete b = any_event (λ e. e.is_deleted && not e.is_tombstone) b.events

abbrev pub contains_tombstone : CdcBatch → Bool
contains_tombstone b = any_event (λ e. e.is_tombstone) b.events

-- The `ValueError`s of `build_batch`, by their messages, and the faults of the dict and the deque
-- that `_take` of batching.py reads.
pub data BatchError : Type 0 where
  no_events not_contiguous mixed_partition mixed_entity mixed_date mixed_schema : BatchError
  unknown_key pop_from_empty unfinished : BatchError

-- `sorted(events, key=lambda event: event.kafka_offset)`, which is stable
insert_by_offset : BronzeEvent → List BronzeEvent → List BronzeEvent
insert_by_offset e [] = e ∷ []
insert_by_offset e (x ∷ xs) =
    let rest = insert_by_offset e xs in
    if leb e.kafka_offset x.kafka_offset then e ∷ x ∷ xs else x ∷ rest

pub sort_by_offset : List BronzeEvent → List BronzeEvent
unfolding insert_by_offset
sort_by_offset [] = []
sort_by_offset (e ∷ es) = insert_by_offset e (sort_by_offset es)

-- `actual_offsets == tuple(range(start, start + len(ordered)))`
offsets_from : ℕ → List BronzeEvent → Bool
offsets_from start [] = true
offsets_from start (e ∷ es) = e.kafka_offset == start && offsets_from (start + 1) es

-- `any(test(event) != test(first) for event in ordered)`, for the four tests of the function
any_differs : (BronzeEvent → Bool) → List BronzeEvent → Bool
any_differs same [] = false
any_differs same (e ∷ es) = not (same e) || any_differs same es

pub last_of : BronzeEvent → List BronzeEvent → BronzeEvent
last_of e [] = e
last_of e (x ∷ xs) = last_of x xs

module _ (sha256 : String → String) where
  -- f"{topic}:{partition}:{offset_start}:{offset_end}:{schema_version}"
  pub deterministic_batch_id : String → ℕ → ℕ → ℕ → String → String
  deterministic_batch_id topic partition offset_start offset_end schema_version =
      let tail = str_append (str offset_end) (str_append ":" schema_version) in
      let middle = str_append (str offset_start) (str_append ":" tail) in
      sha256
        (str_append topic (str_append ":" (str_append (str partition) (str_append ":" middle))))

  -- The batch that `build_batch` returns for ordered events.
  abbrev pub batch_of : BronzeEvent → List BronzeEvent → CdcBatch
  batch_of first rest =
      let last = last_of first rest in
      record {
        batch_id =
            deterministic_batch_id first.kafka_topic first.kafka_partition first.kafka_offset
              last.kafka_offset first.schema_version;
        topic = first.kafka_topic;
        partition = first.kafka_partition;
        offset_start = first.kafka_offset;
        offset_end = last.kafka_offset;
        entity_name = first.entity_name;
        event_date = first.event_date;
        schema_version = first.schema_version;
        events = first ∷ rest;
      }

  -- The checks of `build_batch` on the ordered events.
  build_ordered : BronzeEvent → List BronzeEvent → Result BatchError CdcBatch
  build_ordered first rest =
      let ordered = first ∷ rest in
      if not (offsets_from first.kafka_offset ordered)
      then err not_contiguous
      else if any_differs (λ e. key_eq (topic_partition e) (topic_partition first)) ordered
      then err mixed_partition
      else if any_differs (λ e. str_eq e.entity_name first.entity_name) ordered
      then err mixed_entity
      else if any_differs (λ e. str_eq e.event_date first.event_date) ordered
      then err mixed_date
      else if any_differs (λ e. str_eq e.schema_version first.schema_version) ordered
      then err mixed_schema
      else ok (batch_of first rest)

  build_sorted : List BronzeEvent → Result BatchError CdcBatch
  build_sorted [] = err no_events
  build_sorted (first ∷ rest) = build_ordered first rest

  unfoldable pub build_batch : List BronzeEvent → Result BatchError CdcBatch
  unfolding build_sorted build_ordered sort_by_offset offsets_from any_differs last_of
      deterministic_batch_id
  build_batch events = build_sorted (sort_by_offset events)
