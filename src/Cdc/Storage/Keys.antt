-- ===== src/Cdc/Storage/Keys.antt =====
-- The object keys of src/ingestion/cdc_consumer/storage.py.
use Prim.Native.Char.{code}
use Prim.Native.String.{String, ◌++◌, count}
use fintech_payments_data_pl.Prelude.{
  ℕ, Bool, true, false, ◌&&◌, ◌||◌, Result, ok, err, ◌==◌, leb, if◌then◌else◌,
}
use fintech_payments_data_pl.Prelude.Text.{str}
use fintech_payments_data_pl.Cdc.Models.Batch.{CdcBatch}
use fintech_payments_data_pl.Cdc.Retry.{Raised, value_error}

is_alphanumeric : ℕ → Bool
is_alphanumeric c =
    (leb b'0' c && leb c b'9') || (leb b'A' c && leb c b'Z') || (leb b'a' c && leb c b'z')

is_key_char : ℕ → Bool
unfolding is_alphanumeric
is_key_char c = is_alphanumeric c || c == b'.' || c == b'_' || c == b'-'

all_key_chars : String → Bool
unfolding is_key_char
all_key_chars String.[] = true
all_key_chars (String.◌∷◌ c s) = is_key_char (code c) && all_key_chars s

-- `_PARTITION_VALUE.fullmatch(value)`: [A-Za-z0-9][A-Za-z0-9._-]{0,249}
unfoldable pub is_partition_value : String → Bool
unfolding all_key_chars
is_partition_value String.[] = false
is_partition_value (String.◌∷◌ c s) =
    is_alphanumeric (code c) && all_key_chars s && leb (count s) 249

-- `_safe`
unfoldable pub safe : String → Result Raised String
safe value = if is_partition_value value then ok value else err value_error

-- The f-string of two parts that may raise, the first one first.
with_safe :
    Result Raised String → Result Raised String → (String → String → String) → Result Raised String
with_safe (err e) b f = err e
with_safe (ok a) (err e) f = err e
with_safe (ok a) (ok b) f = ok (f a b)

unfoldable pub build_cdc_object_key : CdcBatch → Result Raised String
unfolding with_safe
build_cdc_object_key b = with_safe (safe b.entity_name) (safe b.topic) λ entity topic.
    "cdc/entity="
    ++ entity
    ++ "/event_date="
    ++ b.event_date
    ++ "/topic="
    ++ topic
    ++ "/partition="
    ++ str b.partition
    ++ "/offset_start="
    ++ str b.offset_start
    ++ "/offset_end="
    ++ str b.offset_end
    ++ "/batch_id="
    ++ b.batch_id
    ++ ".parquet"

with_three :
    Result Raised String
    → Result Raised String
    → Result Raised String
    → (String → String → String → String)
    → Result Raised String
with_three (err e) b c f = err e
with_three (ok a) (err e) c f = err e
with_three (ok a) (ok b) (err e) f = err e
with_three (ok a) (ok b) (ok c) f = ok (f a b c)

unfoldable pub build_dlq_object_key :
    String → String → String → ℕ → ℕ → String → Result Raised String
unfolding with_three
build_dlq_object_key dlq_name consumer_group topic partition offset event_id =
    with_three (safe dlq_name) (safe consumer_group) (safe topic) λ dlq group source.
      "cdc-dlq/dlq="
      ++ dlq
      ++ "/consumer_group="
      ++ group
      ++ "/topic="
      ++ source
      ++ "/partition="
      ++ str partition
      ++ "/offset="
      ++ str offset
      ++ "/event_id="
      ++ event_id
      ++ ".json"
