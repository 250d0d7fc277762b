-- ===== src/Cdc/Envelope/Tests.antt =====
-- The theorem on the parser at an update of a refund; a parsed value is named by a text.
use fintech_payments_data_pl.Prelude.{
  String, ◌≡◌, refl, true, false, Option, none, some, [], ◌∷◌, ok, str_eq, if◌then◌else◌,
}
use fintech_payments_data_pl.Prelude.Int.{pos}
use fintech_payments_data_pl.Prelude.Dict.{Dict, get}
use fintech_payments_data_pl.Prelude.Text.{str}
use fintech_payments_data_pl.Cdc.Models.{BronzeEvent}
use fintech_payments_data_pl.Cdc.Envelope.{
  KafkaMessage, event, decoded, integer, Python, deterministic_event_id, parse_debezium_message,
}
use fintech_payments_data_pl.Cdc.Envelope.Laws.{IsFaithful, parse_debezium_message-IsFaithful}

abbrev dict_named : String → Option (Dict String String)
dict_named s =
    if str_eq s "document"
    then some (("op", "u") ∷ ("source", "source") ∷ ("after", "{}") ∷ [])
    else if str_eq s "source"
    then some (("table", "refunds") ∷ ("lsn", "5") ∷ [])
    else none

abbrev python : Python String String
python = record {
  decode = λ bytes. decoded bytes "raw";
  is_none = λ j. false;
  as_dict = dict_named;
  is_hashable = λ j. true;
  as_text = λ j. some j;
  str_of = λ j. j;
  to_int = λ j. integer (pos 5);
  dumps = λ j. j;
  dumps_base64 = λ s. s;
  base64 = λ b. b;
  sha256 = λ s. s;
  last_part = λ s. s;
  date_of = λ t. some "2024-01-01";
  today = "2024-01-01";
}

abbrev message : KafkaMessage String
message = record {
  topic = "t";
  partition = 0;
  offset = 7;
  key = none;
  value = some "document";
  timestamp_ms = some 9;
}

abbrev update : BronzeEvent
update = record {
  event_id = "t:0:7";
  entity_name = "refunds";
  operation = "u";
  is_snapshot = false;
  is_deleted = false;
  is_tombstone = false;
  event_key_json = none;
  before_json = none;
  after_json = some "{}";
  source_metadata_json = some "source";
  source_lsn = some (pos 5);
  source_tx_id = none;
  source_ts_ms = none;
  connector_ts_ms = none;
  kafka_topic = "t";
  kafka_partition = 0;
  kafka_offset = 7;
  kafka_message_ts_ms = some 9;
  ingested_at = 3;
  event_date = "2024-01-01";
  schema_version = "1";
  raw_event_json = some "raw";
}

parsed_update : parse_debezium_message python message "1" 3 tt ≡ (ok (event update), tt)
unfolding parse_debezium_message get deterministic_event_id str
parsed_update = refl

parse_debezium_message-IsFaithful_example : IsFaithful python message "1" 3 (event update)
parse_debezium_message-IsFaithful_example =
    parse_debezium_message-IsFaithful python message "1" 3 (event update) parsed_update
