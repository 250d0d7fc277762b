-- ===== src/Silver/Deduplication.antt =====
-- src/processing/silver/deduplication.py: duplicate CDC events and the order of latest states.
pub mod Laws
use Prim.Native.Nat.{compare, Ordering}
use Prim.Native.String.{compare as compare_text}
use fintech_payments_data_pl.Prelude.{
  ℕ, ◌+◌, String, Bool, true, false, not, ◌&&◌, ◌||◌, Option, none, some, List, [], ◌∷◌, ◌==◌, ltb,
  str_eq, if◌then◌else◌,
}
use fintech_payments_data_pl.Prelude.Int.{ℤ, pos, negsuc}
use fintech_payments_data_pl.Silver.Models.{
  NormalizedCdcEvent, QualityCode, duplicate_event, duplicate_coordinate, coordinate,
}

-- Python's comparison of tuples: the first difference decides.
and_then : Ordering → Ordering → Ordering
and_then Ordering.eq o = o
and_then Ordering.lt o = Ordering.lt
and_then Ordering.gt o = Ordering.gt

compare_int : ℤ → ℤ → Ordering
compare_int (pos a) (pos b) = compare a b
compare_int (pos a) (negsuc b) = Ordering.gt
compare_int (negsuc a) (pos b) = Ordering.lt
compare_int (negsuc a) (negsuc b) = compare b a

-- `source_lsn if source_lsn is not None else -1`
lsn_or_minus_one : NormalizedCdcEvent → ℤ
lsn_or_minus_one e = elim e.source_lsn [ none ↦ negsuc 0 | some n ↦ n ]

-- `ts or event_time`; an instant is never falsy
or_event_time : Option ℕ → NormalizedCdcEvent → ℕ
or_event_time none e = e.event_time
or_event_time (some t) e = t

-- `event_order_key(a)` against `event_order_key(b)`
event_order : NormalizedCdcEvent → NormalizedCdcEvent → Ordering
unfolding and_then compare_int lsn_or_minus_one or_event_time
event_order a b = and_then (compare_text a.kafka_topic b.kafka_topic) (
    and_then (compare a.kafka_partition b.kafka_partition) (
      and_then (compare a.kafka_offset b.kafka_offset) (
        and_then (compare_int (lsn_or_minus_one a) (lsn_or_minus_one b)) (
          and_then (compare (or_event_time a.source_ts a) (or_event_time b.source_ts b)) (
            and_then (compare (or_event_time a.connector_ts a) (or_event_time b.connector_ts b)) (
              and_then (compare a.ingested_at b.ingested_at)
                (compare_text a.event_id b.event_id)))))))

-- `key(a) <= key(b)`
comes_first : NormalizedCdcEvent → NormalizedCdcEvent → Bool
unfolding event_order
comes_first a b = elim (event_order a b) [ Ordering.gt ↦ false | _ ↦ true ]

insert_event : NormalizedCdcEvent → List NormalizedCdcEvent → List NormalizedCdcEvent
insert_event e [] = e ∷ []
insert_event e (x ∷ xs) =
    let rest = insert_event e xs in if comes_first e x then e ∷ x ∷ xs else x ∷ rest

-- `sorted(events, key=event_order_key)`
sort_events : List NormalizedCdcEvent → List NormalizedCdcEvent
unfolding insert_event comes_first
sort_events [] = []
sort_events (e ∷ es) = insert_event e (sort_events es)

-- The two sets, as the accepted events that they were filled from.
unfoldable pub same_coordinate : NormalizedCdcEvent → NormalizedCdcEvent → Bool
same_coordinate a b =
    str_eq a.kafka_topic b.kafka_topic
    && a.kafka_partition == b.kafka_partition
    && a.kafka_offset == b.kafka_offset

unfoldable pub has_coordinate : NormalizedCdcEvent → List NormalizedCdcEvent → Bool
unfolding same_coordinate
has_coordinate e [] = false
has_coordinate e (x ∷ xs) = same_coordinate x e || has_coordinate e xs

unfoldable pub has_id : NormalizedCdcEvent → List NormalizedCdcEvent → Bool
has_id e [] = false
has_id e (x ∷ xs) = str_eq x.event_id e.event_id || has_id e xs

pub record Outcome : Type 0 where
  pub accepted : List NormalizedCdcEvent
  pub rejected : List (NormalizedCdcEvent × QualityCode)

-- The loop; `seen` holds the accepted events so far, whose coordinates and ids are the two sets.
sift : List NormalizedCdcEvent → List NormalizedCdcEvent → Outcome
sift seen [] = record { accepted = []; rejected = [] }
sift seen (e ∷ es) =
    let drop = sift seen es in
    let keep = sift (e ∷ seen) es in
    if has_coordinate e seen
    then record drop { rejected = (e, duplicate_coordinate) ∷ drop.rejected }
    else if has_id e seen
    then record drop { rejected = (e, duplicate_event) ∷ drop.rejected }
    else record keep { accepted = e ∷ keep.accepted }

unfoldable pub deduplicate_events : List NormalizedCdcEvent → Outcome
unfolding sift sort_events has_coordinate has_id
deduplicate_events events = sift [] (sort_events events)

-- The Kafka coordinates of a stored state row, `none` where the row lacks one.
pub record PriorState : Type 0 where
  pub kafka_topic : Option String
  pub kafka_partition : Option ℤ
  pub kafka_offset : Option ℤ

or_else {ℓ} : {A : Type ℓ} → Option A → A → A
or_else none d = d
or_else (some a) d = a

is_int : ℤ → ℤ → Bool
unfolding compare_int
is_int a b = elim (compare_int a b) [ Ordering.eq ↦ true | _ ↦ false ]

int_below : ℤ → ℤ → Bool
unfolding compare_int
int_below a b = elim (compare_int a b) [ Ordering.lt ↦ true | _ ↦ false ]

-- An empty prior topic is falsy.
unfoldable pub is_newer_than_state : NormalizedCdcEvent → PriorState → Bool
unfolding or_else is_int int_below
is_newer_than_state e state =
    let topic = or_else state.kafka_topic "" in
    let partition = or_else state.kafka_partition (negsuc 0) in
    let offset = or_else state.kafka_offset (negsuc 0) in
    if str_eq topic e.kafka_topic && is_int partition (pos e.kafka_partition)
    then int_below offset (pos e.kafka_offset)
    else not (
        not (str_eq topic "")
        && str_eq topic e.kafka_topic
        && not (is_int partition (pos e.kafka_partition)))
