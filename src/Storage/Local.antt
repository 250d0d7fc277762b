-- ===== src/Storage/Local.antt =====
-- `LocalStorageBackend`: objects are files below the root of their bucket, each with a sidecar of
-- metadata. The state is the files, by path; a temporary file has a fresh name, is removed before
-- the call ends, and is left out, as are directories. Other writers act between two looks at the
-- files or a look and a link; one `stat`, which reads the file and its sidecar, is one look.
pub mod Keeps
pub mod Laws
pub mod Immutable
use fintech_payments_data_pl.Prelude.{
  ℕ, String, ◌≡◌, Bool, true, false, not, ◌||◌, ◌&&◌, Option, none, some, List, [], ◌∷◌, Result, ok,
  err, Exec, raise, raise_if, pure, ◌>>=◌, ◌>>◌, str_eq, if◌then◌else◌,
}
use fintech_payments_data_pl.Prelude.Dict.{Dict, get, put}
use fintech_payments_data_pl.Storage.{
  StorageError, invalid_key, unknown_bucket, wrong_checksum, corrupt_copy, disappeared, not_visible,
  no_object, immutable_collision, sidecar_gone, Metadata, Sidecar, StoredObject, Platform, text_Eq,
  sanitize_metadata, validate_object_key,
}

-- `_resolve_existing` and the end of `_existing_after_metadata`
abbrev as_existing : StoredObject → StoredObject
as_existing o = record o { already_exists = true }

abbrev pub or_default {ℓ} : {A : Type ℓ} → Option A → A → A
or_default none d = d
or_default (some a) d = a

-- `metadata` as a mapping to optional values, for `sanitize_metadata`.
abbrev with_values : Metadata → Dict String (Option String)
with_values [] = []
with_values ((k, v) ∷ m) = (k, some v) ∷ with_values m

-- The moments of a write at which other writers act: between the first look and the link, between
-- a refused link and the look at the file that was there, before the look for the sidecar, between
-- that look and the reading or the link of the sidecar, between a refused link of the sidecar and its
-- reading, and before the last look.
pub data Moment : Type 0 where
  before_link link_refused before_sidecar sidecar_seen before_sidecar_link : Moment
  sidecar_link_refused before_last_look : Moment

-- The roots of the buckets, and what other writers do to the files at each moment.
module _ (p : Platform) (roots : Dict String String)
    (meanwhile : Moment → Dict String p.Bytes → Dict String p.Bytes) where
  abbrev pub Files : Type 0
  Files = Dict String p.Bytes

  abbrev pub Action : Type 0 → Type 0
  Action A = Exec StorageError Files A

  bucket_root : String → Result StorageError String
  bucket_root bucket = elim (get bucket roots) [ none ↦ err unknown_bucket | some r ↦ ok r ]

  under_root : Result StorageError String → Result StorageError String → Result StorageError String
  under_root (err e) key = err e
  under_root (ok root) (err e) = err e
  under_root (ok root) (ok key) = ok (p.join root key)

  -- `_path`
  unfoldable pub object_path : String → String → Result StorageError String
  unfolding under_root bucket_root
  object_path bucket key = under_root (bucket_root bucket) (validate_object_key p key)

  unfoldable pub lift : {A : Type 0} → Result StorageError A → Action A
  lift r fs = (r, fs)

  -- The sidecar of a path; without one every key is absent.
  unfoldable pub sidecar_of : String → Files → Sidecar
  sidecar_of path fs = elim (get (p.sidecar_path path) fs) [
    | none ↦ record { checksum_sha256 = none; content_type = none; metadata = none }
    | some text ↦ p.decode text
  ]

  unfoldable pub stored_object : String → String → String → p.Bytes → Sidecar → StoredObject
  stored_object bucket key path bytes side = record {
    bucket = bucket;
    object_key = key;
    uri = path;
    checksum_sha256 = p.sha256 bytes;
    size_bytes = p.size bytes;
    content_type = or_default side.content_type "application/octet-stream";
    metadata = sanitize_metadata p (with_values (or_default side.metadata []));
    already_exists = false;
  }

  unfoldable pub stat_file :
      String → String → String → Sidecar → Option p.Bytes → Option StoredObject
  unfolding stored_object
  stat_file bucket key path side none = none
  stat_file bucket key path side (some bytes) = some (stored_object bucket key path bytes side)

  -- `stat` at a path; a key that has a path is valid, and the object carries its normal form.
  unfoldable pub stat_at : String → String → String → Files → Option StoredObject
  stat_at bucket key path fs =
      stat_file bucket (p.as_posix key) path (sidecar_of path fs) (get path fs)

  unfoldable pub stat : String → String → Action (Option StoredObject)
  unfolding lift
  stat bucket key = do
    path ← lift (object_path bucket key)
    (λ fs. (ok (stat_at bucket key path fs), fs))

  unfoldable pub exists : String → String → Action Bool
  unfolding lift
  exists bucket key = do
    path ← lift (object_path bucket key)
    (λ fs. (ok (elim (get path fs) [ none ↦ false | some d ↦ true ]), fs))

  unfoldable pub read_bytes : String → String → Action p.Bytes
  unfolding lift
  read_bytes bucket key = do
    path ← lift (object_path bucket key)
    (λ fs. (elim (get path fs) [ none ↦ err no_object | some d ↦ ok d ], fs))

  unfoldable pub resolve_existing : StoredObject → String → Action StoredObject
  resolve_existing existing checksum =
      if str_eq existing.checksum_sha256 checksum
      then pure (as_existing existing)
      else raise immutable_collision

  has_checksum : String → Sidecar → Bool
  has_checksum checksum side = elim side.checksum_sha256 [
    | none ↦ false
    | some c ↦ str_eq c checksum
  ]

  -- The reading of a sidecar that was there.
  unfoldable pub check_sidecar : String → Option p.Bytes → Action (Unit {0})
  unfolding has_checksum
  check_sidecar checksum none = raise sidecar_gone
  check_sidecar checksum (some text) =
      raise_if (not (has_checksum checksum (p.decode text))) immutable_collision

  unfoldable pub read_sidecar : Moment → String → String → Action (Unit {0})
  read_sidecar moment path checksum fs =
      let fs' = meanwhile moment fs in check_sidecar checksum (get (p.sidecar_path path) fs') fs'

  -- `os.link` of the sidecar, which fails where one is.
  unfoldable pub link_sidecar : String → String → p.Bytes → Option p.Bytes → Action (Unit {0})
  link_sidecar path checksum text (some other) fs =
      read_sidecar sidecar_link_refused path checksum fs
  link_sidecar path checksum text none fs = (ok tt, put (p.sidecar_path path) text fs)

  -- `_write_metadata` from the look for a sidecar on
  unfoldable pub write_sidecar :
      String → String → String → Dict String (Option String) → Option p.Bytes → Action (Unit {0})
  write_sidecar path checksum content_type metadata (some text) fs =
      read_sidecar sidecar_seen path checksum fs
  write_sidecar path checksum content_type metadata none fs =
      let side : Sidecar = record {
        checksum_sha256 = some checksum;
        content_type = some content_type;
        metadata = some (sanitize_metadata p (put "checksum_sha256" (some checksum) metadata));
      } in
      let fs' = meanwhile before_sidecar_link fs in
      link_sidecar path checksum (p.encode side) (get (p.sidecar_path path) fs') fs'

  unfoldable pub write_metadata :
      String → String → String → Dict String (Option String) → Action (Unit {0})
  write_metadata path checksum content_type metadata fs =
      let fs' = meanwhile before_sidecar fs in
      write_sidecar path checksum content_type metadata (get (p.sidecar_path path) fs') fs'

  -- `stat` again at the end, and the exception when the object is gone.
  unfoldable pub look_again :
      StorageError → (StoredObject → StoredObject) → Option StoredObject → Action StoredObject
  look_again e f none = raise e
  look_again e f (some o) = pure (f o)

  unfoldable pub last_look :
      StorageError → (StoredObject → StoredObject) → String → String → String → Action StoredObject
  last_look e f bucket key path fs =
      let fs' = meanwhile before_last_look fs in look_again e f (stat_at bucket key path fs') fs'

  -- The sidecar and the last look, at the end of both branches.
  unfoldable pub finish :
      StorageError
      → (StoredObject → StoredObject)
      → String
      → String
      → String
      → String
      → String
      → Dict String (Option String)
      → Action StoredObject
  finish e f bucket key path checksum content_type metadata = do
    write_metadata path checksum content_type metadata
    last_look e f bucket key path

  -- What follows a refused link.
  unfoldable pub resolve_winner : String → Option StoredObject → Action StoredObject
  resolve_winner checksum none = raise disappeared
  resolve_winner checksum (some winner) = resolve_existing winner checksum

  -- `os.link`, which fails where a file is, and what follows it.
  unfoldable pub link :
      String
      → String
      → String
      → p.Bytes
      → String
      → String
      → Dict String (Option String)
      → Option p.Bytes
      → Action StoredObject
  link bucket key path bytes checksum content_type metadata (some other) fs =
      let fs' = meanwhile link_refused fs in
      resolve_winner checksum (stat_at bucket key path fs') fs'
  link bucket key path bytes checksum content_type metadata none fs =
      finish not_visible (λ o. o) bucket key path checksum content_type metadata (put path bytes fs)

  -- The branch of an object that is there.
  unfoldable pub put_existing :
      String
      → String
      → String
      → String
      → String
      → Dict String (Option String)
      → StoredObject
      → Action StoredObject
  put_existing bucket key path checksum content_type metadata existing = do
    resolve_existing existing checksum
    finish disappeared as_existing bucket key path checksum content_type metadata

  -- The common part of the two `put`s, from the first `stat` on; `bytes` is what reached the disk.
  unfoldable pub put_at :
      String
      → String
      → String
      → p.Bytes
      → String
      → String
      → Dict String (Option String)
      → Option StoredObject
      → Action StoredObject
  put_at bucket key path bytes checksum content_type metadata (some existing) fs =
      put_existing bucket key path checksum content_type metadata existing fs
  put_at bucket key path bytes checksum content_type metadata none fs =
      let fs' = meanwhile before_link fs in
      if str_eq (p.sha256 bytes) checksum
      then link bucket key path bytes checksum content_type metadata (get path fs') fs'
      else (err corrupt_copy, fs')

  unfoldable pub put_immutable :
      String
      → String
      → p.Bytes
      → String
      → String
      → Dict String (Option String)
      → Action StoredObject
  unfolding lift
  put_immutable bucket key source checksum content_type metadata =
      if not (str_eq (p.sha256 source) checksum) then raise wrong_checksum else (do
        path ← lift (object_path bucket key)
        (λ fs.
            put_at bucket key path source checksum content_type metadata
              (stat_at bucket key path fs) fs))

  -- It does not check the temporary file, whose checksum is that of the bytes by definition.
  unfoldable pub put_bytes_immutable :
      String → String → p.Bytes → String → Dict String (Option String) → Action StoredObject
  unfolding lift
  put_bytes_immutable bucket key bytes content_type metadata = do
    path ← lift (object_path bucket key)
    (λ fs.
        put_at bucket key path bytes (p.sha256 bytes) content_type metadata
          (stat_at bucket key path fs) fs)
