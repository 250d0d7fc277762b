-- ===== src/Cdc/Storage.antt =====
-- src/ingestion/cdc_consumer/storage.py: the immutable object layout of the CDC batches and of the
-- poison records, over the operations of a storage backend.
pub mod Keys
pub mod Laws
use fintech_payments_data_pl.Prelude.{
  ℕ, String, Bool, true, false, not, Option, none, some, List, [], ◌∷◌, ok, err, Exec, pure, raise,
  raise_if, ◌>>=◌, ◌>>◌, answer, ◌==◌, str_eq, if◌then◌else◌,
}
use fintech_payments_data_pl.Prelude.Text.{str}
use fintech_payments_data_pl.Prelude.Dict.{Dict}
use fintech_payments_data_pl.Storage.{StoredObject}
use fintech_payments_data_pl.Cdc.Models.Batch.{
  CdcBatch, record_count, contains_snapshot, contains_delete, contains_tombstone,
}
use fintech_payments_data_pl.Cdc.Retry.{Raised, runtime_error}
use fintech_payments_data_pl.Cdc.Storage.Keys.{build_cdc_object_key}

-- `SerializedParquet` of parquet.py
pub record SerializedParquet : Type 0 where
  pub path : String
  pub checksum_sha256 : String
  pub size_bytes : ℕ

-- What the CDC code calls of a `StorageBackend`.
pub record Backend (W : Type 0) : Type 0 where
  pub stat : String → String → Exec Raised W (Option StoredObject)
  pub put_immutable :
      String
      → String
      → SerializedParquet
      → String
      → Dict String (Option String)
      → Exec Raised W StoredObject

bool_text : Bool → String
bool_text true = "True"
bool_text false = "False"

module _ {W : Type 0} where
  -- `_verify`
  check_size : StoredObject → Option ℕ → Exec Raised W (Unit {0})
  check_size stored none = pure tt
  check_size stored (some size) = raise_if (not (stored.size_bytes == size)) runtime_error

  unfoldable pub verify : StoredObject → String → Option ℕ → Exec Raised W (Unit {0})
  unfolding check_size
  verify stored checksum expected_size = do
    raise_if (not (str_eq stored.checksum_sha256 checksum)) runtime_error
    check_size stored expected_size

-- The metadata of `put_batch`; `timestamp` is `stable_ingestion_metadata_timestamp(ingested_at)`.
batch_metadata : CdcBatch → String → String → Dict String (Option String)
batch_metadata b consumer_group timestamp =
    ("source_name", some "postgresql-debezium-kafka")
    ∷ ("artifact_type", some "cdc_bronze_parquet")
    ∷ ("entity_name", some b.entity_name)
    ∷ ("topic", some b.topic)
    ∷ ("partition", some (str b.partition))
    ∷ ("offset_start", some (str b.offset_start))
    ∷ ("offset_end", some (str b.offset_end))
    ∷ ("record_count", some (str (record_count b)))
    ∷ ("schema_version", some b.schema_version)
    ∷ ("consumer_group", some consumer_group)
    ∷ ("ingested_at", some timestamp)
    ∷ ("contains_snapshot", some (bool_text (contains_snapshot b)))
    ∷ ("contains_delete", some (bool_text (contains_delete b)))
    ∷ ("contains_tombstone", some (bool_text (contains_tombstone b)))
    ∷ []

-- `CdcObjectStorage` with its Bronze bucket.
module _ {W : Type 0} (backend : Backend W) (bronze_bucket : String) where
  unfoldable pub put_batch :
      CdcBatch → SerializedParquet → String → String → Exec Raised W StoredObject
  unfolding batch_metadata bool_text
  put_batch b serialized consumer_group timestamp = do
    key ← answer (build_cdc_object_key b)
    stored ←
        backend.put_immutable bronze_bucket key serialized "application/vnd.apache.parquet"
          (batch_metadata b consumer_group timestamp)
    verify stored serialized.checksum_sha256 (some serialized.size_bytes)
    pure stored

  unfoldable pub stat_batch : CdcBatch → Exec Raised W (Option StoredObject)
  stat_batch b = do key ← answer (build_cdc_object_key b); backend.stat bronze_bucket key

  verify_found : String → Option String → Option StoredObject → Exec Raised W StoredObject
  verify_found checksum uri none = raise runtime_error
  verify_found checksum none (some stored) = do verify stored checksum none; pure stored
  verify_found checksum (some uri) (some stored) = do
    raise_if (not (str_eq stored.uri uri)) runtime_error
    verify stored checksum none
    pure stored

  unfoldable pub verify_batch : CdcBatch → String → Option String → Exec Raised W StoredObject
  unfolding verify_found
  verify_batch b checksum expected_uri = do
    stored ← stat_batch b
    verify_found checksum expected_uri stored
