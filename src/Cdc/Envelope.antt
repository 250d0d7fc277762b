-- ===== src/Cdc/Envelope.antt =====
-- src/ingestion/cdc_consumer/envelope.py: a Kafka record as a Bronze event, a heartbeat or a poison
-- record. What Python says of a parsed JSON value is a parameter.
pub mod Laws
mod Tests
use Prim.Native.String.{◌++◌}
use fintech_payments_data_pl.Prelude.{
  ℕ, String, Bool, true, false, not, ◌&&◌, ◌||◌, Option, none, some, List, [], ◌∷◌, Exec, pure,
  raise, ◌>>=◌, ◌>>◌, str_eq, if◌then◌else◌,
}
use fintech_payments_data_pl.Prelude.Int.{ℤ, pos}
use fintech_payments_data_pl.Prelude.Dict.{Dict, get}
use fintech_payments_data_pl.Prelude.Text.{str}
use fintech_payments_data_pl.Storage.{text_Eq}
use fintech_payments_data_pl.Cdc.Models.{BronzeEvent}

-- `RawKafkaMessage` with its bytes
pub record KafkaMessage (Bytes : Type 0) : Type 0 where
  pub topic : String
  pub partition : ℕ
  pub offset : ℕ
  pub key : Option Bytes
  pub value : Option Bytes
  pub timestamp_ms : Option ℕ

-- `PoisonEvent`; the time of the failure is the message's timestamp, or none for 1970.
pub record PoisonEvent : Type 0 where
  pub event_id : String
  pub error_code : String
  pub error_message : String
  pub original_topic : String
  pub original_partition : ℕ
  pub original_offset : ℕ
  pub original_key : Option String
  pub raw_value : Option String
  pub failed_at : Option ℕ
  pub retry_count : ℕ

pub data ParsedMessage : Type 0 where
  event : BronzeEvent → ParsedMessage
  heartbeat : ParsedMessage
  poison : PoisonEvent → ParsedMessage

-- The exceptions that escape: a `TypeError` of the membership test for a value with no hash, an
-- `OverflowError` of `int`, and what `fromtimestamp` raises.
pub data EnvelopeError : Type 0 where
  unhashable_operation int_overflow bad_timestamp : EnvelopeError

-- What `_decode_json` gives.
pub data Decoded (J : Type 0) : Type 0 where
  bad_encoding bad_json : Decoded J
  decoded : J → String → Decoded J

-- What `int(value)` gives of a value that is no boolean; of a boolean it is not asked.
pub data ToInt : Type 0 where
  integer : ℤ → ToInt
  invalid overflows : ToInt

-- Python's view of parsed values: `None`, dicts, hashable values, strings, `str`, `int` after the test
-- for a boolean, `deterministic_json`, base64, SHA-256, the last part of a topic and dates.
pub record Python (J Bytes : Type 0) : Type 0 where
  pub decode : Bytes → Decoded J
  pub is_none : J → Bool
  pub as_dict : J → Option (Dict String J)
  pub is_hashable : J → Bool
  pub as_text : J → Option String
  pub str_of : J → String
  pub to_int : J → ToInt
  pub dumps : J → String
  pub dumps_base64 : String → String
  pub base64 : Bytes → String
  pub sha256 : String → String
  pub last_part : String → String
  pub date_of : ℤ → Option String
  pub today : String

abbrev pub Parse : Type 0 → Type 0
Parse A = Exec EnvelopeError (Unit {0}) A

module _ {J Bytes : Type 0} (py : Python J Bytes) where
  -- `deterministic_event_id`
  unfoldable pub deterministic_event_id : String → ℕ → ℕ → String
  deterministic_event_id topic partition offset =
      py.sha256 (topic ++ ":" ++ str partition ++ ":" ++ str offset)

  -- `_key_json`
  decoded_key : Bytes → Decoded J → String
  decoded_key key bad_encoding = py.dumps_base64 (py.base64 key)
  decoded_key key bad_json = py.dumps_base64 (py.base64 key)
  decoded_key key (decoded j text) = py.dumps j

  key_json : Option Bytes → Option String
  unfolding decoded_key
  key_json none = none
  key_json (some key) = some (decoded_key key (py.decode key))

  -- `_entity_from_topic`
  entity_from_topic : String → String
  entity_from_topic topic = if str_eq (py.last_part topic) "" then "unknown" else py.last_part topic

  -- `_event_date`
  date_or_raise : Option String → Parse String
  date_or_raise none = raise bad_timestamp
  date_or_raise (some d) = pure d

  event_date : List (Option ℤ) → Parse String
  unfolding date_or_raise
  event_date [] = pure py.today
  event_date (none ∷ rest) = event_date rest
  event_date (some t ∷ rest) = date_or_raise (py.date_of t)

  base64_of : Option Bytes → Option String
  base64_of none = none
  base64_of (some b) = some (py.base64 b)

  -- `_poison`
  unfoldable pub poison_of : KafkaMessage Bytes → String → String → PoisonEvent
  unfolding base64_of
  poison_of m code message = record {
    event_id = deterministic_event_id m.topic m.partition m.offset;
    error_code = code;
    error_message = message;
    original_topic = m.topic;
    original_partition = m.partition;
    original_offset = m.offset;
    original_key = base64_of m.key;
    raw_value = base64_of m.value;
    failed_at = m.timestamp_ms;
    retry_count = 0;
  }

  as_int : Option ℕ → Option ℤ
  as_int none = none
  as_int (some n) = some (pos n)

  -- `datetime.fromtimestamp` of the message's time, which may raise
  check_time : Option ℤ → Parse (Unit {0})
  unfolding date_or_raise
  check_time none = pure tt
  check_time (some t) = do date_or_raise (py.date_of t); pure tt

  unfoldable pub poisoned : KafkaMessage Bytes → String → String → Parse ParsedMessage
  unfolding as_int check_time
  poisoned m code message = do
    check_time (as_int m.timestamp_ms)
    pure (poison (poison_of m code message))

  -- `payload.get(name)`, where an absent key is `None` too
  not_null : Option J → Option J
  not_null none = none
  not_null (some j) = if py.is_none j then none else some j

  field : String → Dict String J → Option J
  unfolding not_null
  field name d = not_null (get name d)

  has_key : Option J → Bool
  has_key none = false
  has_key (some j) = true

  -- `_optional_int`, with none for the `ValueError`
  int_of : ToInt → Parse (Option (Option ℤ))
  int_of (integer z) = pure (some (some z))
  int_of invalid = pure none
  int_of overflows = raise int_overflow

  optional_int : Option J → Parse (Option (Option ℤ))
  unfolding int_of
  optional_int none = pure (some none)
  optional_int (some j) = int_of (py.to_int j)

  json_of : Option J → Option String
  json_of none = none
  json_of (some j) = some (py.dumps j)

  -- The payload of a document: an absent one is the document itself.
  payload_of : Dict String J → Option J → Option (Dict String J)
  payload_of document none = some document
  payload_of document (some j) = py.as_dict j

  dict_of : Option J → Option (Dict String J)
  dict_of none = none
  dict_of (some j) = py.as_dict j

  abbrev is_kept : String → Bool
  is_kept op = str_eq op "r" || str_eq op "c" || str_eq op "u"

  -- `ingested_at` and the schema's version.
  module _ (m : KafkaMessage Bytes) (schema_version : String) (observed_at : ℕ) where
    tombstone : Parse ParsedMessage
    unfolding key_json entity_from_topic event_date as_int
    tombstone = do
      date ← event_date (as_int m.timestamp_ms ∷ [])
      pure (
          event (record {
            event_id = deterministic_event_id m.topic m.partition m.offset;
            entity_name = entity_from_topic m.topic;
            operation = "t";
            is_snapshot = false;
            is_deleted = true;
            is_tombstone = true;
            event_key_json = key_json m.key;
            before_json = none;
            after_json = none;
            source_metadata_json = none;
            source_lsn = none;
            source_tx_id = none;
            source_ts_ms = none;
            connector_ts_ms = none;
            kafka_topic = m.topic;
            kafka_partition = m.partition;
            kafka_offset = m.offset;
            kafka_message_ts_ms = m.timestamp_ms;
            ingested_at = observed_at;
            event_date = date;
            schema_version = schema_version;
            raw_event_json = none;
          }))

    -- The conversions, of which the first failure is a poison record.
    or_poison : Option (Option ℤ) → (Option ℤ → Parse ParsedMessage) → Parse ParsedMessage
    or_poison none k =
        poisoned m "INVALID_SOURCE_METADATA" "Debezium source coordinate or timestamp is invalid"
    or_poison (some z) k = k z

    change_of :
        String
        → String
        → String
        → String
        → Option String
        → Option String
        → Option ℤ
        → Option ℤ
        → Option ℤ
        → Option ℤ
        → String
        → BronzeEvent
    unfolding key_json
    change_of op table source_json raw_text before after lsn tx_id source_ts connector_ts date =
        record {
          event_id = deterministic_event_id m.topic m.partition m.offset;
          entity_name = table;
          operation = op;
          is_snapshot = str_eq op "r";
          is_deleted = str_eq op "d";
          is_tombstone = false;
          event_key_json = key_json m.key;
          before_json = before;
          after_json = after;
          source_metadata_json = some source_json;
          source_lsn = lsn;
          source_tx_id = tx_id;
          source_ts_ms = source_ts;
          connector_ts_ms = connector_ts;
          kafka_topic = m.topic;
          kafka_partition = m.partition;
          kafka_offset = m.offset;
          kafka_message_ts_ms = m.timestamp_ms;
          ingested_at = observed_at;
          event_date = date;
          schema_version = schema_version;
          raw_event_json = some raw_text;
        }

    -- The event, from values that have been checked; `source_json` is the whole source.
    build_event :
        Dict String J → Dict String J → String → J → J → String → String → Parse ParsedMessage
    unfolding optional_int or_poison event_date as_int change_of field json_of
    build_event payload source op table lsn source_json raw_text = do
      source_lsn ← optional_int (some lsn)
      or_poison source_lsn λ lsn_number. do
        tx ← optional_int (field "txId" source)
        or_poison tx λ tx_id. do
          ts ← optional_int (field "ts_ms" source)
          or_poison ts λ source_ts. do
            connector ← optional_int (field "ts_ms" payload)
            or_poison connector λ connector_ts. do
              date ← event_date (source_ts ∷ connector_ts ∷ as_int m.timestamp_ms ∷ [])
              pure (
                  event (
                    change_of op (py.str_of table) source_json raw_text
                      (json_of (field "before" payload)) (json_of (field "after" payload))
                      lsn_number tx_id source_ts connector_ts date))

    check_states :
        Dict String J → Dict String J → String → J → J → String → String → Parse ParsedMessage
    unfolding build_event has_key field
    check_states payload source op table lsn source_json raw_text =
        if str_eq op "d" && not (has_key (field "before" payload))
        then poisoned m "INVALID_DELETE" "Delete event must retain before state"
        else if is_kept op && not (has_key (field "after" payload))
        then poisoned m "INVALID_AFTER" "Non-delete event must contain after state"
        else build_event payload source op table lsn source_json raw_text

    check_coordinates :
        Dict String J
        → Dict String J
        → String
        → Option J
        → Option J
        → String
        → String
        → Parse ParsedMessage
    unfolding check_states
    check_coordinates payload source op (some table) (some lsn) source_json raw_text =
        check_states payload source op table lsn source_json raw_text
    check_coordinates payload source op _ _ source_json raw_text =
        poisoned m "MISSING_SOURCE_COORDINATES" "Debezium source table or LSN is missing"

    source_text : Option J → String
    source_text none = "null"
    source_text (some j) = py.dumps j

    check_source : Dict String J → String → Option (Dict String J) → String → Parse ParsedMessage
    unfolding check_coordinates field source_text
    check_source payload op none raw_text =
        poisoned m "MISSING_SOURCE" "Debezium source metadata is missing"
    check_source payload op (some source) raw_text =
        check_coordinates payload source op (field "table" source) (field "lsn" source)
          (source_text (get "source" payload)) raw_text

    unsupported : Parse ParsedMessage
    unsupported = poisoned m "UNSUPPORTED_OPERATION" "Debezium operation is absent or unsupported"

    check_text : Dict String J → Option String → String → Parse ParsedMessage
    unfolding check_source unsupported dict_of
    check_text payload none raw_text = unsupported
    check_text payload (some op) raw_text =
        if is_kept op || str_eq op "d"
        then check_source payload op (dict_of (get "source" payload)) raw_text
        else unsupported

    -- `operation not in SUPPORTED_OPERATIONS` needs the value's hash.
    check_operation : Dict String J → Option J → String → Parse ParsedMessage
    unfolding check_text unsupported has_key
    check_operation payload none raw_text =
        if has_key (get "ts_ms" payload) then pure heartbeat else unsupported
    check_operation payload (some op) raw_text =
        if py.is_hashable op
        then check_text payload (py.as_text op) raw_text
        else raise unhashable_operation

    check_payload : Option (Dict String J) → String → Parse ParsedMessage
    unfolding check_operation field
    check_payload none raw_text = poisoned m "MISSING_PAYLOAD" "Debezium payload is missing"
    check_payload (some payload) raw_text = check_operation payload (field "op" payload) raw_text

    check_document : Option (Dict String J) → String → Parse ParsedMessage
    unfolding check_payload payload_of
    check_document none raw_text = poisoned m "INVALID_ENVELOPE" "CDC value must be a JSON object"
    check_document (some document) raw_text =
        check_payload (payload_of document (get "payload" document)) raw_text

    check_decoded : Decoded J → Parse ParsedMessage
    unfolding check_document
    check_decoded bad_encoding = poisoned m "MALFORMED_ENCODING" "Value is not valid UTF-8"
    check_decoded bad_json = poisoned m "MALFORMED_JSON" "Value is not valid JSON"
    check_decoded (decoded j raw_text) = check_document (py.as_dict j) raw_text

    parse_value : Option Bytes → Parse ParsedMessage
    unfolding tombstone check_decoded
    parse_value none = tombstone
    parse_value (some v) = check_decoded (py.decode v)

    unfoldable pub parse_debezium_message : Parse ParsedMessage
    unfolding parse_value
    parse_debezium_message = parse_value m.value
