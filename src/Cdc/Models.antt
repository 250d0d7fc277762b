-- ===== src/Cdc/Models.antt =====
-- src/ingestion/cdc_consumer/models.py: records, keys and lifecycle states. Kafka partitions and
-- offsets are natural numbers; an instant is its number of microseconds since 1970.
pub mod Batch
use fintech_payments_data_pl.Prelude.{
  ℕ, String, ◌≡◌, ◌↔◌, Bool, true, false, ◌&&◌, Option, arith, ◌==◌, str_eq, eq_iff, ==_iff,
}
use fintech_payments_data_pl.Prelude.Int.{ℤ}
use fintech_payments_data_pl.Prelude.Dict.{Eq}

pub data BatchStatus : Type 0 where
  collecting serializing uploading uploaded committed failed : BatchStatus

pub data ParseKind : Type 0 where
  event heartbeat poison : ParseKind

pub record TopicPartitionKey : Type 0 where
  pub topic : String
  pub partition : ℕ

-- The `==` of the frozen dataclass.
abbrev pub key_eq : TopicPartitionKey → TopicPartitionKey → Bool
key_eq a b = str_eq a.topic b.topic && a.partition == b.partition

pub key_eq_iff : (a b : TopicPartitionKey) → (key_eq a b ≡ true) ↔ (a ≡ b)
key_eq_iff a b = ground (arith, eq_iff a.topic b.topic)

pub record BronzeEvent : Type 0 where
  pub event_id : String
  pub entity_name : String
  pub operation : String
  pub is_snapshot : Bool
  pub is_deleted : Bool
  pub is_tombstone : Bool
  pub event_key_json : Option String
  pub before_json : Option String
  pub after_json : Option String
  pub source_metadata_json : Option String
  pub source_lsn : Option ℤ
  pub source_tx_id : Option ℤ
  pub source_ts_ms : Option ℤ
  pub connector_ts_ms : Option ℤ
  pub kafka_topic : String
  pub kafka_partition : ℕ
  pub kafka_offset : ℕ
  pub kafka_message_ts_ms : Option ℕ
  pub ingested_at : ℕ
  pub event_date : String
  pub schema_version : String
  pub raw_event_json : Option String

abbrev pub topic_partition : BronzeEvent → TopicPartitionKey
topic_partition e = record { topic = e.kafka_topic; partition = e.kafka_partition }

instance abbrev pub key_Eq : Eq TopicPartitionKey
key_Eq = record { beq = key_eq; beq_iff = key_eq_iff }
