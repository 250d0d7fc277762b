-- ===== src/Storage.antt =====
-- src/common/storage.py: immutable object storage. What the storage uses of Python's library and of
-- the disk is a `Platform`.
pub mod Local
mod Tests
use fintech_payments_data_pl.Prelude.{
  ℕ, String, ◌≡◌, Bool, true, false, not, ◌||◌, ◌&&◌, Option, none, some, List, [], ◌∷◌, Result, ok,
  err, str_eq, if◌then◌else◌,
}
use fintech_payments_data_pl.Prelude.Dict.{Dict, Eq, put, get}
use fintech_payments_data_pl.Prelude.Text.{replace_breaks, prefix}
use text.Mathlib.TextEquality.{eq_iff}

-- `StorageBackendError`, by the place that raises it, its subclass `ImmutableCollisionError`, and the
-- `FileNotFoundError` of a sidecar that goes before it is read
pub data StorageError : Type 0 where
  invalid_key unknown_bucket wrong_checksum corrupt_copy : StorageError
  disappeared not_visible no_object immutable_collision sidecar_gone : StorageError

abbrev pub Metadata : Type 0
Metadata = Dict String String

-- The JSON of a sidecar file; an absent key is `none`.
pub record Sidecar : Type 0 where
  pub checksum_sha256 : Option String
  pub content_type : Option String
  pub metadata : Option Metadata

pub record StoredObject : Type 0 where
  pub bucket : String
  pub object_key : String
  pub uri : String
  pub checksum_sha256 : String
  pub size_bytes : ℕ
  pub content_type : String
  pub metadata : Metadata
  pub already_exists : Bool

-- `strip`, `lower` and `replace("-", "_")` of a text, SHA-256, the size of a file, what
-- `PurePosixPath` says of a key, the joining of a root and a key, and the JSON of a sidecar.
pub record Platform : Type 1 where
  pub Bytes : Type 0
  pub strip : String → String
  pub lower : String → String
  pub underscores : String → String
  pub sha256 : Bytes → String
  pub size : Bytes → ℕ
  pub has_backslash : String → Bool
  pub is_absolute : String → Bool
  pub parts : String → List String
  pub as_posix : String → String
  pub join : String → String → String
  pub sidecar_path : String → String
  pub encode : Sidecar → Bytes
  pub decode : Bytes → Sidecar

instance abbrev pub text_Eq : Eq String
text_Eq = record { beq = str_eq; beq_iff = eq_iff }

-- `SAFE_METADATA_FIELDS`
abbrev pub safe_metadata_fields : List String
safe_metadata_fields =
    "accepted_count" ∷ "artifact_type" ∷ "checksum_sha256" ∷ "code_version" ∷ "consumer_group"
    ∷ "contains_delete" ∷ "contains_snapshot" ∷ "contains_tombstone" ∷ "dlq_topic" ∷ "entity_name"
    ∷ "error_code" ∷ "ingested_at" ∷ "ingestion_run_id" ∷ "input_checksum" ∷ "kafka_offset"
    ∷ "offset_end" ∷ "offset_start" ∷ "output_type" ∷ "partner_id" ∷ "pipeline_name" ∷ "partition"
    ∷ "processing_date" ∷ "processing_run_id" ∷ "record_count" ∷ "rejected_count" ∷ "schema_version"
    ∷ "silver_schema_version" ∷ "source_schema_version" ∷ "source_type" ∷ "source_file_name"
    ∷ "source_file_size" ∷ "source_name" ∷ "topic" ∷ []

unfoldable pub is_in : String → List String → Bool
is_in s [] = false
is_in s (x ∷ xs) = str_eq x s || is_in s xs

module _ (p : Platform) where
  -- One entry of the loop; a value is its `str`, and `None` is `none`.
  unfoldable pub sanitize_entry : String → Option String → Metadata → Metadata
  sanitize_entry raw_key none sanitized = sanitized
  sanitize_entry raw_key (some raw_value) sanitized =
      let key = p.underscores (p.lower (p.strip raw_key)) in
      let value = p.strip (replace_breaks raw_value) in
      if not (is_in key safe_metadata_fields) || str_eq value ""
      then sanitized
      else put key (prefix 1024 value) sanitized

  sanitize_from : Metadata → Dict String (Option String) → Metadata
  unfolding sanitize_entry
  sanitize_from sanitized [] = sanitized
  sanitize_from sanitized ((k, v) ∷ entries) = sanitize_from (sanitize_entry k v sanitized) entries

  unfoldable pub sanitize_metadata : Dict String (Option String) → Metadata
  unfolding sanitize_from
  sanitize_metadata entries = sanitize_from [] entries

  unfoldable pub validate_object_key : String → Result StorageError String
  validate_object_key key =
      if str_eq key "" || p.has_backslash key
      then err invalid_key
      else if p.is_absolute key || is_in ".." (p.parts key) || is_in "." (p.parts key)
      then err invalid_key
      else ok (p.as_posix key)
