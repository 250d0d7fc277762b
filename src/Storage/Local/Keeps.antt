-- ===== src/Storage/Local/Keeps.antt =====
-- What the parts of the immutable writes of `LocalStorageBackend` keep, when the other writers
-- change and remove no file.
use fintech_payments_data_pl.Prelude.{
  String, ◌≡◌, refl, sym, ◌∙◌, subst, Bool, true, false, Option, none, some, Result, ok, err, raise,
  pure, raise_if, ◌⊎◌, Bool-cases, Option-cases, inl, inr, str_eq, eq_iff, if◌then◌else◌,
}
use fintech_payments_data_pl.Prelude.Dict.{Dict, get, put, get-put}
use fintech_payments_data_pl.Storage.{
  StorageError, immutable_collision, StoredObject, Platform, text_Eq,
}
use fintech_payments_data_pl.Storage.Local.{
  Moment, before_sidecar, sidecar_seen, before_sidecar_link, sidecar_link_refused, before_last_look,
  stat_at, stat_file, stored_object, sidecar_of, resolve_existing, check_sidecar, read_sidecar,
  link_sidecar, write_sidecar, write_metadata, look_again, last_look,
}

pub absent_found {ℓ} : {A : Type ℓ} {o : Option A} {a : A} → o ≡ none → o ≡ some a → ⊥
absent_found h k = cc

module _ {Bytes : Type 0} where
  -- No file is changed or removed.
  abbrev pub Keeps : Dict String Bytes → Dict String Bytes → Type 0
  Keeps fs fs' = (path : String) (d : Bytes) → get path fs ≡ some d → get path fs' ≡ some d

  pub Keeps-trans : (a b c : Dict String Bytes) → Keeps a b → Keeps b c → Keeps a c
  Keeps-trans a b c h k path d e = k path d (h path d e)

  put_kept :
      (path other : String) (d d' : Bytes) (fs : Dict String Bytes)
      → get path fs ≡ none
      → get other fs ≡ some d'
      → (if str_eq path other then some d else get other fs) ≡ some d'
  put_kept path other d d' fs absent e = elim (Bool-cases (str_eq path other)) [
    | inl same ↦
        absurd (absent_found (subst (λ x. get x fs ≡ none) ((eq_iff path other).0 same) absent) e)
    | inr different ↦ rw different e
  ]

  pub Keeps-put :
      (path : String) (d : Bytes) (fs : Dict String Bytes)
      → get path fs ≡ none
      → Keeps fs (put path d fs)
  Keeps-put path d fs absent other d' e =
      get-put other path d fs ∙ put_kept path other d d' fs absent e

  pub get-put_same :
      (path : String) (d : Bytes) (fs : Dict String Bytes) → get path (put path d fs) ≡ some d
  get-put_same path d fs = get-put path path d fs ∙ rw ((eq_iff path path).1 refl) refl

pub result_cases :
    {E A : Type 0} (r : Result E A) → ((e : E) × (r ≡ err e)) ⊎ ((a : A) × (r ≡ ok a))
result_cases (err e) = inl (e, refl)
result_cases (ok a) = inr (a, refl)

module _ (p : Platform) (roots : Dict String String)
    (meanwhile : Moment → Dict String p.Bytes → Dict String p.Bytes) where
  -- The other writers change and remove no file, at no moment.
  abbrev pub OthersKeep : Type 0
  OthersKeep = (moment : Moment) (fs : Dict String p.Bytes) → Keeps fs (meanwhile moment fs)

  raise_if-state :
      (b : Bool) (e : StorageError) (fs : Dict String p.Bytes) → (raise_if b e fs).1 ≡ fs
  raise_if-state true e fs = refl
  raise_if-state false e fs = refl

  check_sidecar-state :
      (checksum : String) (o : Option p.Bytes) (fs : Dict String p.Bytes)
      → (check_sidecar p roots meanwhile checksum o fs).1 ≡ fs
  unfolding check_sidecar
  check_sidecar-state checksum none fs = refl
  check_sidecar-state checksum (some text) fs = raise_if-state _ _ fs

  read_sidecar-Keeps :
      (moment : Moment) (path checksum : String) (fs : Dict String p.Bytes)
      → OthersKeep
      → Keeps fs (read_sidecar p roots meanwhile moment path checksum fs).1
  unfolding read_sidecar
  read_sidecar-Keeps moment path checksum fs others =
      subst (Keeps fs) (sym (check_sidecar-state checksum _ _)) (others moment fs)

  link_sidecar-Keeps :
      (path checksum : String) (text : p.Bytes) (o : Option p.Bytes) (fs : Dict String p.Bytes)
      → get (p.sidecar_path path) fs ≡ o
      → OthersKeep
      → Keeps fs (link_sidecar p roots meanwhile path checksum text o fs).1
  unfolding link_sidecar
  link_sidecar-Keeps path checksum text (some other) fs found others =
      read_sidecar-Keeps sidecar_link_refused path checksum fs others
  link_sidecar-Keeps path checksum text none fs absent others =
      Keeps-put (p.sidecar_path path) text fs absent

  write_sidecar-Keeps :
      (path checksum content_type : String) (metadata : Dict String (Option String))
      (o : Option p.Bytes) (fs : Dict String p.Bytes)
      → OthersKeep
      → Keeps fs (write_sidecar p roots meanwhile path checksum content_type metadata o fs).1
  unfolding write_sidecar
  write_sidecar-Keeps path checksum content_type metadata (some text) fs others =
      read_sidecar-Keeps sidecar_seen path checksum fs others
  write_sidecar-Keeps path checksum content_type metadata none fs others =
      let fs' = meanwhile before_sidecar_link fs in
      Keeps-trans fs fs' _ (others before_sidecar_link fs)
        (link_sidecar-Keeps path checksum _ (get (p.sidecar_path path) fs') fs' refl others)

  pub write_metadata-Keeps :
      (path checksum content_type : String) (metadata : Dict String (Option String))
      (fs : Dict String p.Bytes)
      → OthersKeep
      → Keeps fs (write_metadata p roots meanwhile path checksum content_type metadata fs).1
  unfolding write_metadata
  write_metadata-Keeps path checksum content_type metadata fs others =
      let fs' = meanwhile before_sidecar fs in
      Keeps-trans fs fs' _ (others before_sidecar fs) (
        write_sidecar-Keeps path checksum content_type metadata (get (p.sidecar_path path) fs') fs'
          others)

  pub stat_at-found :
      (bucket key path : String) (d : p.Bytes) (fs : Dict String p.Bytes)
      → get path fs ≡ some d
      → stat_at p roots meanwhile bucket key path fs
        ≡ some (
            stored_object p roots meanwhile bucket
              (p.as_posix key)
              path
              d
              (sidecar_of p roots meanwhile path fs))
  unfolding stat_at stat_file
  stat_at-found bucket key path d fs found = rw found refl

  pub resolved :
      (existing : StoredObject) (checksum : String)
      → (resolve_existing p roots meanwhile existing checksum ≡ raise immutable_collision)
        ⊎ ((existing.checksum_sha256 ≡ checksum)
            × (resolve_existing p roots meanwhile existing checksum
                ≡ pure (record existing { already_exists = true })))
  unfolding resolve_existing
  resolved existing checksum = elim (Bool-cases (str_eq existing.checksum_sha256 checksum)) [
    | inl same ↦ inr ((eq_iff existing.checksum_sha256 checksum).0 same, rw same refl)
    | inr other ↦ inl (rw other refl)
  ]

  -- Either a file is there and `stat` reports its checksum, or there is none.
  pub stat_at-cases :
      (bucket key path : String) (fs : Dict String p.Bytes)
      → (stat_at p roots meanwhile bucket key path fs ≡ none)
        ⊎ ((d : p.Bytes) × (o : StoredObject) × (get path fs ≡ some d)
            × (p.sha256 d ≡ o.checksum_sha256)
            × (stat_at p roots meanwhile bucket key path fs ≡ some o))
  unfolding stat_at stat_file stored_object
  stat_at-cases bucket key path fs = elim (Option-cases (get path fs)) [
    | inl absent ↦ inl (rw absent refl)
    | inr (d, found) ↦ inr (d, _, found, refl, stat_at-found bucket key path d fs found)
  ]

  look-state :
      (e : StorageError) (f : StoredObject → StoredObject) (o : Option StoredObject)
      (fs : Dict String p.Bytes)
      → (look_again p roots meanwhile e f o fs).1 ≡ fs
  unfolding look_again
  look-state e f none fs = refl
  look-state e f (some o) fs = refl

  pub last_look-Keeps :
      (e : StorageError) (f : StoredObject → StoredObject) (bucket key path : String)
      (fs : Dict String p.Bytes)
      → OthersKeep
      → Keeps fs (last_look p roots meanwhile e f bucket key path fs).1
  unfolding last_look
  last_look-Keeps e f bucket key path fs others =
      subst (Keeps fs) (sym (look-state e f _ _)) (others before_last_look fs)
