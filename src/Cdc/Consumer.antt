-- ===== src/Cdc/Consumer.antt =====
-- src/ingestion/cdc_consumer/consumer.py: the consumer's loop. An iteration is a `Turn`: whether a
-- signal has come before the test of the loop, the rebalances that `poll` reports, and what it returns,
-- with the clock's readings. Parsing, the processor, the quarantine and Kafka are parameters.
pub mod Rules
pub mod Steps
pub mod Runs
mod Tests
use fintech_payments_data_pl.Prelude.{
  ℕ, ◌+◌, String, Bool, true, false, not, ◌&&◌, Option, none, some, List, [], ◌∷◌, Result, ok, err,
  Exec, pure, raise, raise_if, ◌>>=◌, ◌>>◌, leb, ltb, if◌then◌else◌,
}
use fintech_payments_data_pl.Prelude.Dict.{Dict}
use fintech_payments_data_pl.Cdc.Models.{BronzeEvent, TopicPartitionKey}
use fintech_payments_data_pl.Cdc.Models.Batch.{CdcBatch, BatchError}
use fintech_payments_data_pl.Cdc.Batching.{
  PartitionBatcher, add, flush_due, flush_partition, flush_partitions, flush_all,
}
use fintech_payments_data_pl.Cdc.Batching as Batching
use fintech_payments_data_pl.Cdc.Retry.{Raised}

-- `RawKafkaMessage`, without the bytes and the timestamp, which the parsing reads.
pub record RawKafkaMessage : Type 0 where
  pub topic : String
  pub partition : ℕ
  pub offset : ℕ

abbrev pub raw_topic_partition : RawKafkaMessage → TopicPartitionKey
raw_topic_partition m = record { topic = m.topic; partition = m.partition }

-- `ParsedMessage`, over the poison records.
pub data ParsedMessage (Poison : Type 0) : Type 0 where
  event : BronzeEvent → ParsedMessage Poison
  poison : Poison → ParsedMessage Poison
  heartbeat : ParsedMessage Poison

-- What the loop raises.
pub data ConsumerError : Type 0 where
  bad_max_messages no_assignment kafka_exception : ConsumerError
  batch_error : BatchError → ConsumerError
  service_raised : Raised → ConsumerError
  -- The turns end before the loop does.
  still_running : ConsumerError

pub record Counters : Type 0 where
  pub polled : ℕ
  pub events : ℕ
  pub poison : ℕ
  pub heartbeats : ℕ
  pub batches : ℕ
  pub committed : ℕ

-- The processor, the quarantine and Kafka.
pub record Services (W Poison : Type 0) : Type 0 where
  pub process : CdcBatch → Exec Raised W (Unit {0})
  pub reconcile : Dict TopicPartitionKey ℕ → Exec Raised W (Unit {0})
  pub quarantine : Poison → Exec Raised W (Unit {0})
  pub commit : String → ℕ → ℕ → Exec Raised W (Unit {0})
  pub close : W → W

-- A call of `_on_assign`, with the valid offsets that Kafka reports or a failure to report them, or of
-- `_on_revoke`.
pub data Rebalance : Type 0 where
  assigned : List TopicPartitionKey → Option (Dict TopicPartitionKey ℕ) → Rebalance
  revoked : List TopicPartitionKey → ℕ → Rebalance

-- What `poll` returns; for nothing, whether the deadline of the assignment has passed.
pub data Polled (Poison : Type 0) : Type 0 where
  nothing : ℕ → Bool → Polled Poison
  partition_eof failed : Polled Poison
  arrived : RawKafkaMessage → ParsedMessage Poison → ℕ → Polled Poison

pub record Turn (Poison : Type 0) : Type 0 where
  pub signalled : Bool
  pub rebalances : List Rebalance
  pub polled : Polled Poison

-- The arguments of `run` and the setting of the constructor.
pub record Settings : Type 0 where
  pub once : Bool
  pub max_messages : Option ℕ
  pub dry_run : Bool

pub record Consumer (W : Type 0) : Type 0 where
  pub batcher : PartitionBatcher
  pub counters : Counters
  pub assignment_seen : Bool
  pub empty_polls : ℕ
  pub world : W

pub record ConsumerRunResult : Type 0 where
  pub counters : Counters
  pub dry_run : Bool

module _ {W Poison : Type 0} (sv : Services W Poison) (sha256 : String → String)
    (st : Settings) where
  abbrev pub Step : Type 0 → Type 0
  Step A = Exec ConsumerError (Consumer W) A

  abbrev from_world :
      {A : Type 0} → Consumer W → Result Raised A × W → Result ConsumerError A × Consumer W
  from_world s (ok a, w) = (ok a, record s { world = w })
  from_world s (err e, w) = (err (service_raised e), record s { world = w })

  unfoldable pub outside : {A : Type 0} → Exec Raised W A → Step A
  outside m s = from_world s (m s.world)

  abbrev from_batcher :
      {A : Type 0}
      → Consumer W
      → Result BatchError A × PartitionBatcher
      → Result ConsumerError A × Consumer W
  from_batcher s (ok a, b) = (ok a, record s { batcher = b })
  from_batcher s (err e, b) = (err (batch_error e), record s { batcher = b })

  unfoldable pub batching : {A : Type 0} → Batching.Action A → Step A
  batching m s = from_batcher s (m s.batcher)

  unfoldable pub count : (Counters → Counters) → Step (Unit {0})
  count f s = (ok tt, record s { counters = f s.counters })

  -- `_flush_batches`
  flush_batch : Bool → CdcBatch → Step (Unit {0})
  flush_batch true b = pure tt
  flush_batch false b = do
    outside (sv.process b)
    count (λ c. record c { committed = c.committed + 1 })

  unfoldable pub flush_batches : List CdcBatch → Step (Unit {0})
  unfolding flush_batch
  flush_batches [] = pure tt
  flush_batches (b ∷ bs) = do
    count (λ c. record c { batches = c.batches + 1 })
    flush_batch st.dry_run b
    flush_batches bs

  unfoldable pub flush : Batching.Action (List CdcBatch) → Step (Unit {0})
  flush m = do batches ← batching m; flush_batches batches

  -- `_on_assign` and `_on_revoke`
  reconciled : List TopicPartitionKey → Option (Dict TopicPartitionKey ℕ) → Step (Unit {0})
  reconciled [] offsets = pure tt
  reconciled (k ∷ ks) none = raise kafka_exception
  reconciled (k ∷ ks) (some offsets) = outside (sv.reconcile offsets)

  see_assignment : Step (Unit {0})
  see_assignment s = (ok tt, record s { assignment_seen = true })

  unfoldable pub rebalance : Rebalance → Step (Unit {0})
  unfolding reconciled see_assignment
  rebalance (assigned partitions offsets) = do
    see_assignment
    if st.dry_run then pure tt else reconciled partitions offsets
  rebalance (revoked partitions clock) = flush (flush_partitions sha256 partitions none clock)

  unfoldable pub rebalance_all : List Rebalance → Step (Unit {0})
  rebalance_all [] = pure tt
  rebalance_all (r ∷ rs) = do rebalance r; rebalance_all rs

  -- `offset_committer.commit` behind the message
  commit_behind : RawKafkaMessage → Step (Unit {0})
  commit_behind raw = do
    outside (sv.commit raw.topic raw.partition (raw.offset + 1))
    count (λ c. record c { committed = c.committed + 1 })

  quarantine_and_commit : Bool → RawKafkaMessage → Poison → Step (Unit {0})
  quarantine_and_commit true raw p = pure tt
  quarantine_and_commit false raw p = do outside (sv.quarantine p); commit_behind raw

  unfoldable pub handle : RawKafkaMessage → ParsedMessage Poison → ℕ → Step (Unit {0})
  unfolding quarantine_and_commit commit_behind
  handle raw (event e) clock = do
    count (λ c. record c { events = c.events + 1 })
    flush (add sha256 e none clock)
  handle raw (poison p) clock = do
    count (λ c. record c { poison = c.poison + 1 })
    flush (flush_partition sha256 (raw_topic_partition raw) none clock)
    quarantine_and_commit st.dry_run raw p
  handle raw heartbeat clock = do
    count (λ c. record c { heartbeats = c.heartbeats + 1 })
    if st.dry_run then pure tt else commit_behind raw

  -- Whether the loop ends, which it does with a clean shutdown.
  reached : Option ℕ → ℕ → Bool
  reached none polled = false
  reached (some m) polled = leb m polled

  empty_poll_of : Bool → Bool → Step Bool
  empty_poll_of false true s = (err no_assignment, s)
  empty_poll_of false false s = (ok false, s)
  empty_poll_of true deadline_passed s =
      (ok (leb 2 (s.empty_polls + 1)), record s { empty_polls = s.empty_polls + 1 })

  empty_poll : Bool → Step Bool
  unfolding empty_poll_of
  empty_poll deadline_passed s = empty_poll_of s.assignment_seen deadline_passed s

  set_empty_polls : Step (Unit {0})
  set_empty_polls s = (ok tt, record s { empty_polls = 0 })

  is_enough : Step Bool
  unfolding reached
  is_enough s = (ok (reached st.max_messages s.counters.polled), s)

  unfoldable pub take_polled : Polled Poison → Step Bool
  unfolding empty_poll set_empty_polls is_enough
  take_polled (nothing clock deadline_passed) = do
    flush (flush_due sha256 none clock)
    if st.once then empty_poll deadline_passed else pure false
  take_polled partition_eof = do set_empty_polls; pure false
  take_polled failed = raise kafka_exception
  take_polled (arrived raw parsed clock) = do
    set_empty_polls
    count (λ c. record c { polled = c.polled + 1 })
    handle raw parsed clock
    is_enough

  unfoldable pub turn : Turn Poison → Step Bool
  turn t = do rebalance_all t.rebalances; take_polled t.polled

  -- The test of the `while`.
  unless_signalled : Bool → Step (Unit {0}) → Step (Unit {0})
  unless_signalled true m = pure tt
  unless_signalled false m = m

  unfoldable pub run_turns : List (Turn Poison) → Step (Unit {0})
  unfolding unless_signalled
  run_turns [] = raise still_running
  run_turns (t ∷ ts) =
      let rest = run_turns ts in
      unless_signalled t.signalled (do stop ← turn t; if stop then pure tt else rest)

  bad_limit : Option ℕ → Bool
  bad_limit none = false
  bad_limit (some m) = leb m 0

  report : Step ConsumerRunResult
  report s = (ok (record { counters = s.counters; dry_run = st.dry_run }), s)

  close_consumer :
      {A : Type 0} → Result ConsumerError A × Consumer W → Result ConsumerError A × Consumer W
  close_consumer (r, s) = (r, record s { world = sv.close s.world })

  -- The `try` of `run`: the loop, and the last flush after a clean shutdown.
  unfoldable pub run_loop : List (Turn Poison) → ℕ → Step (Unit {0})
  run_loop turns clock = do run_turns turns; flush (flush_all sha256 none clock)

  unfoldable pub run : List (Turn Poison) → ℕ → Step ConsumerRunResult
  unfolding bad_limit report close_consumer
  run turns clock = do
    raise_if (bad_limit st.max_messages) bad_max_messages
    (λ s. close_consumer (run_loop turns clock s))
    report
