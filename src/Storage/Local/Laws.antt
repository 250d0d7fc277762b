-- ===== src/Storage/Local/Laws.antt =====
-- What the immutable writes of `LocalStorageBackend` promise of the object that they return.
use fintech_payments_data_pl.Prelude.{
  String, ◌≡◌, refl, sym, ◌∙◌, subst, Option, none, some, Result, ok, err, continue, ◌⊎◌,
  Bool-cases, inl, inr, str_eq, eq_iff,
}
use fintech_payments_data_pl.Prelude.Dict.{Dict, get, put}
use fintech_payments_data_pl.Storage.{StorageError, StoredObject, Platform, text_Eq}
use fintech_payments_data_pl.Storage.Local.{
  Moment, before_link, link_refused, before_last_look, object_path, lift, stat_at, stored_object,
  write_metadata, look_again, last_look, finish, resolve_winner, link, put_existing, put_at,
  put_immutable, put_bytes_immutable,
}
use fintech_payments_data_pl.Storage.Local.Keeps.{
  OthersKeep, write_metadata-Keeps, stat_at-found, stat_at-cases, resolved, result_cases,
  get-put_same,
}

module _ (p : Platform) (roots : Dict String String)
    (meanwhile : Moment → Dict String p.Bytes → Dict String p.Bytes) where
  -- What is true of a result that is not an exception.
  abbrev pub Delivers :
      String → String → Result StorageError StoredObject → Dict String p.Bytes → Type 0
  Delivers path checksum (err e) fs = Unit
  Delivers path checksum (ok o) fs =
      (d : p.Bytes) × (get path fs ≡ some d)
      × (p.sha256 d ≡ checksum)
      × (o.checksum_sha256 ≡ checksum)

  -- An object that reads as the bytes wanted, under any function that keeps the checksum.
  look-Delivers :
      (e : StorageError) (f : StoredObject → StoredObject) (bucket key path checksum : String)
      (d : p.Bytes) (fs : Dict String p.Bytes)
      → ((o : StoredObject) → (f o).checksum_sha256 ≡ o.checksum_sha256)
      → get path fs ≡ some d
      → p.sha256 d ≡ checksum
      → OthersKeep p roots meanwhile
      → let x = last_look p roots meanwhile e f bucket key path fs in Delivers path checksum x.0 x.1
  unfolding last_look look_again stored_object
  look-Delivers e f bucket key path checksum d fs same found sum others =
      let fs' = meanwhile before_last_look fs in
      let found' = others before_last_look fs path d found in
      subst (λ s. let x = look_again p roots meanwhile e f s fs' in Delivers path checksum x.0 x.1)
        (sym (stat_at-found p roots meanwhile bucket key path d fs' found'))
        (d, found', sum, same _ ∙ sum)

  after-Delivers :
      (e : StorageError) (f : StoredObject → StoredObject) (bucket key path checksum : String)
      (d : p.Bytes) (r : Result StorageError (Unit {0})) (fs : Dict String p.Bytes)
      → ((o : StoredObject) → (f o).checksum_sha256 ≡ o.checksum_sha256)
      → get path fs ≡ some d
      → p.sha256 d ≡ checksum
      → OthersKeep p roots meanwhile
      → let x = continue r (λ _. last_look p roots meanwhile e f bucket key path) fs in
        Delivers path checksum x.0 x.1
  after-Delivers e f bucket key path checksum d (err e') fs same found sum others = tt
  after-Delivers e f bucket key path checksum d (ok u) fs same found sum others =
      look-Delivers e f bucket key path checksum d fs same found sum others

  -- The end of a write, after which the last look sees the bytes.
  finish-Delivers :
      (e : StorageError) (f : StoredObject → StoredObject)
      (bucket key path checksum content_type : String) (metadata : Dict String (Option String))
      (d : p.Bytes) (fs : Dict String p.Bytes)
      → ((o : StoredObject) → (f o).checksum_sha256 ≡ o.checksum_sha256)
      → get path fs ≡ some d
      → p.sha256 d ≡ checksum
      → OthersKeep p roots meanwhile
      → let x = finish p roots meanwhile e f bucket key path checksum content_type metadata fs in
        Delivers path checksum x.0 x.1
  unfolding finish
  finish-Delivers e f bucket key path checksum content_type metadata d fs same found sum others =
      let w = write_metadata p roots meanwhile path checksum content_type metadata fs in
      after-Delivers e f bucket key path checksum d w.0 w.1 same
        (write_metadata-Keeps p roots meanwhile path checksum content_type metadata fs others path d
          found)
        sum others

  existing-Delivers :
      (bucket key path : String) (d : p.Bytes) (checksum content_type : String)
      (metadata : Dict String (Option String)) (existing : StoredObject) (fs : Dict String p.Bytes)
      → get path fs ≡ some d
      → p.sha256 d ≡ existing.checksum_sha256
      → OthersKeep p roots meanwhile
      → let x =
          put_existing p roots meanwhile bucket key path checksum content_type metadata existing
            fs in
        Delivers path checksum x.0 x.1
  unfolding put_existing
  existing-Delivers bucket key path d checksum content_type metadata existing fs found sum others =
      elim (resolved p roots meanwhile existing checksum) [
        | inl collision ↦ rw collision tt
        | inr (same, goes) ↦ rw goes (
            finish-Delivers _ _ bucket key path checksum content_type metadata d fs (λ o. refl)
              found (sum ∙ same) others)
      ]

  -- What was there when the link was refused is returned only if it has the checksum.
  winner-Delivers :
      (bucket key path checksum : String) (fs : Dict String p.Bytes)
      → let x =
          resolve_winner p roots meanwhile checksum
            (stat_at p roots meanwhile bucket key path fs)
            fs in
        Delivers path checksum x.0 x.1
  unfolding resolve_winner
  winner-Delivers bucket key path checksum fs =
      elim (stat_at-cases p roots meanwhile bucket key path fs) [
        | inl gone ↦ rw gone tt
        | inr (d, o, found, sum, seen) ↦ rw seen (elim (resolved p roots meanwhile o checksum) [
          | inl collision ↦ rw collision tt
          | inr (same, goes) ↦ rw goes (d, found, sum ∙ same, same)
        ])
      ]

  link-Delivers :
      (bucket key path : String) (d : p.Bytes) (checksum content_type : String)
      (metadata : Dict String (Option String)) (o : Option p.Bytes) (fs : Dict String p.Bytes)
      → p.sha256 d ≡ checksum
      → OthersKeep p roots meanwhile
      → let x = link p roots meanwhile bucket key path d checksum content_type metadata o fs in
        Delivers path checksum x.0 x.1
  unfolding link
  link-Delivers bucket key path d checksum content_type metadata (some other) fs sum others =
      winner-Delivers bucket key path checksum (meanwhile link_refused fs)
  link-Delivers bucket key path d checksum content_type metadata none fs sum others =
      finish-Delivers _ (λ o. o) bucket key path checksum content_type metadata d (put path d fs)
        (λ o. refl) (get-put_same path d fs) sum others

  put_at-Delivers :
      (bucket key path : String) (d : p.Bytes) (checksum content_type : String)
      (metadata : Dict String (Option String)) (fs : Dict String p.Bytes)
      → OthersKeep p roots meanwhile
      → let x =
          put_at p roots meanwhile bucket key path d checksum content_type metadata
            (stat_at p roots meanwhile bucket key path fs)
            fs in
        Delivers path checksum x.0 x.1
  unfolding put_at
  put_at-Delivers bucket key path d checksum content_type metadata fs others =
      elim (stat_at-cases p roots meanwhile bucket key path fs) [
        | inr (e, o, found, sum, seen) ↦ rw seen (
            existing-Delivers bucket key path e checksum content_type metadata o fs found sum
              others)
        | inl absent ↦ rw absent (elim (Bool-cases (str_eq (p.sha256 d) checksum)) [
          | inr corrupt ↦ rw corrupt tt
          | inl copied ↦ rw copied (
              link-Delivers bucket key path d checksum content_type metadata
                (get path (meanwhile before_link fs)) (meanwhile before_link fs)
                ((eq_iff (p.sha256 d) checksum).0 copied) others)
        ])
      ]

  -- What a `put` that returns an object has ensured: the key has a path, the file there has the
  -- checksum, and the object reports it.
  abbrev pub Stores :
      String → String → String → Result StorageError StoredObject → Dict String p.Bytes → Type 0
  Stores bucket key checksum (err e) fs = Unit
  Stores bucket key checksum (ok o) fs =
      (path : String) × (object_path p roots meanwhile bucket key ≡ ok path)
      × Delivers path checksum (ok o) fs

  stores :
      (bucket key path checksum : String) (r : Result StorageError StoredObject)
      (fs : Dict String p.Bytes)
      → object_path p roots meanwhile bucket key ≡ ok path
      → Delivers path checksum r fs
      → Stores bucket key checksum r fs
  stores bucket key path checksum (err e) fs h k = tt
  stores bucket key path checksum (ok o) fs h k = (path, h, k)

  pub path-cases :
      (bucket key : String)
      → ((e : StorageError) × (object_path p roots meanwhile bucket key ≡ err e))
        ⊎ ((path : String) × (object_path p roots meanwhile bucket key ≡ ok path))
  path-cases bucket key = result_cases (object_path p roots meanwhile bucket key)

  -- When the other writers, at whatever moments they act, change and remove no file, and
  -- `put_bytes_immutable` returns an object, be it new, repaired or another writer's, the file of its
  -- key has the checksum of the given bytes, and the object reports that checksum.
  pub put_bytes_immutable-Stores :
      (bucket key : String) (d : p.Bytes) (content_type : String)
      (metadata : Dict String (Option String)) (fs : Dict String p.Bytes)
      → OthersKeep p roots meanwhile
      → let x = put_bytes_immutable p roots meanwhile bucket key d content_type metadata fs in
        Stores bucket key (p.sha256 d) x.0 x.1
  unfolding put_bytes_immutable lift
  put_bytes_immutable-Stores bucket key d content_type metadata fs others =
      elim (path-cases bucket key) [
        | inl (e, bad) ↦ rw bad tt
        | inr (path, good) ↦ rw good (
            let x =
              put_at p roots meanwhile bucket key path d (p.sha256 d) content_type metadata
                (stat_at p roots meanwhile bucket key path fs) fs in
            stores bucket key path (p.sha256 d) x.0 x.1 good
              (put_at-Delivers bucket key path d (p.sha256 d) content_type metadata fs others))
      ]

  -- When the other writers, at whatever moments they act, change and remove no file, and
  -- `put_immutable` returns an object, be it new, repaired or another writer's, the file of its key
  -- has the declared checksum, and the object reports it.
  pub put_immutable-Stores :
      (bucket key : String) (source : p.Bytes) (checksum content_type : String)
      (metadata : Dict String (Option String)) (fs : Dict String p.Bytes)
      → OthersKeep p roots meanwhile
      → let x =
          put_immutable p roots meanwhile bucket key source checksum content_type metadata fs in
        Stores bucket key checksum x.0 x.1
  unfolding put_immutable lift
  put_immutable-Stores bucket key source checksum content_type metadata fs others =
      elim (Bool-cases (str_eq (p.sha256 source) checksum)) [
        | inr wrong ↦ rw wrong tt
        | inl declared ↦ rw declared (elim (path-cases bucket key) [
          | inl (e, bad) ↦ rw bad tt
          | inr (path, good) ↦ rw good (
              let x =
                put_at p roots meanwhile bucket key path source checksum content_type metadata
                  (stat_at p roots meanwhile bucket key path fs) fs in
              stores bucket key path checksum x.0 x.1 good
                (put_at-Delivers bucket key path source checksum content_type metadata fs others))
        ])
      ]
