-- ===== src/Storage/Local/Immutable.antt =====
-- No write of `LocalStorageBackend` changes or removes a file, and a new key is created.
use fintech_payments_data_pl.Prelude.{
  String, ◌≡◌, refl, sym, subst, false, Option, none, some, Result, ok, err, continue, Bool-cases,
  Option-cases, inl, inr, str_eq,
}
use fintech_payments_data_pl.Prelude.Dict.{Dict, get, put}
use fintech_payments_data_pl.Storage.{StorageError, StoredObject, Platform, text_Eq}
use fintech_payments_data_pl.Storage.Local.{
  Moment, before_link, link_refused, lift, stat_at, write_metadata, last_look, finish,
  resolve_winner, link, put_existing, put_at, put_bytes_immutable,
}
use fintech_payments_data_pl.Storage.Local.Keeps.{
  Keeps, Keeps-trans, Keeps-put, OthersKeep, write_metadata-Keeps, last_look-Keeps, resolved,
}
use fintech_payments_data_pl.Storage.Local.Laws.{path-cases}

module _ (p : Platform) (roots : Dict String String)
    (meanwhile : Moment → Dict String p.Bytes → Dict String p.Bytes) where
  after-Keeps :
      (e : StorageError) (f : StoredObject → StoredObject) (bucket key path : String)
      (r : Result StorageError (Unit {0})) (fs : Dict String p.Bytes)
      → OthersKeep p roots meanwhile
      → Keeps fs (continue r (λ _. last_look p roots meanwhile e f bucket key path) fs).1
  after-Keeps e f bucket key path (err e') fs others = λ q d h. h
  after-Keeps e f bucket key path (ok u) fs others =
      last_look-Keeps p roots meanwhile e f bucket key path fs others

  finish-Keeps :
      (e : StorageError) (f : StoredObject → StoredObject)
      (bucket key path checksum content_type : String) (metadata : Dict String (Option String))
      (fs : Dict String p.Bytes)
      → OthersKeep p roots meanwhile
      → Keeps fs (finish p roots meanwhile e f bucket key path checksum content_type metadata fs).1
  unfolding finish
  finish-Keeps e f bucket key path checksum content_type metadata fs others =
      let w = write_metadata p roots meanwhile path checksum content_type metadata fs in
      Keeps-trans fs w.1 _
        (write_metadata-Keeps p roots meanwhile path checksum content_type metadata fs others)
        (after-Keeps e f bucket key path w.0 w.1 others)

  existing-Keeps :
      (bucket key path checksum content_type : String) (metadata : Dict String (Option String))
      (existing : StoredObject) (fs : Dict String p.Bytes)
      → OthersKeep p roots meanwhile
      → Keeps fs
          (put_existing p roots meanwhile bucket key path checksum content_type metadata existing
            fs).1
  unfolding put_existing
  existing-Keeps bucket key path checksum content_type metadata existing fs others =
      elim (resolved p roots meanwhile existing checksum) [
        | inl collision ↦ rw collision (λ q d e. e)
        | inr (same, goes) ↦
            rw goes (finish-Keeps _ _ bucket key path checksum content_type metadata fs others)
      ]

  winner-state :
      (checksum : String) (o : Option StoredObject) (fs : Dict String p.Bytes)
      → (resolve_winner p roots meanwhile checksum o fs).1 ≡ fs
  unfolding resolve_winner
  winner-state checksum none fs = refl
  winner-state checksum (some winner) fs = elim (resolved p roots meanwhile winner checksum) [
    | inl collision ↦ rw collision refl
    | inr (same, goes) ↦ rw goes refl
  ]

  link-Keeps :
      (bucket key path : String) (d : p.Bytes) (checksum content_type : String)
      (metadata : Dict String (Option String)) (o : Option p.Bytes) (fs : Dict String p.Bytes)
      → get path fs ≡ o
      → OthersKeep p roots meanwhile
      → Keeps fs (link p roots meanwhile bucket key path d checksum content_type metadata o fs).1
  unfolding link
  link-Keeps bucket key path d checksum content_type metadata (some other) fs seen others =
      subst (Keeps fs) (sym (winner-state checksum _ _)) (others link_refused fs)
  link-Keeps bucket key path d checksum content_type metadata none fs seen others =
      Keeps-trans fs (put path d fs) _ (Keeps-put path d fs seen) (
        finish-Keeps _ (λ o. o) bucket key path checksum content_type metadata (put path d fs)
          others)

  put_at-Keeps :
      (bucket key path : String) (d : p.Bytes) (checksum content_type : String)
      (metadata : Dict String (Option String)) (fs : Dict String p.Bytes)
      → OthersKeep p roots meanwhile
      → Keeps fs
          (put_at p roots meanwhile bucket key path d checksum content_type metadata
            (stat_at p roots meanwhile bucket key path fs)
            fs).1
  unfolding put_at
  put_at-Keeps bucket key path d checksum content_type metadata fs others =
      let fs' = meanwhile before_link fs in
      elim (Option-cases (stat_at p roots meanwhile bucket key path fs)) [
        | inr (o, seen) ↦
            rw seen (existing-Keeps bucket key path checksum content_type metadata o fs others)
        | inl absent ↦ rw absent (elim (Bool-cases (str_eq (p.sha256 d) checksum)) [
          | inr corrupt ↦ rw corrupt (others before_link fs)
          | inl copied ↦ rw copied (
              Keeps-trans fs fs' _ (others before_link fs) (
                link-Keeps bucket key path d checksum content_type metadata (get path fs') fs' refl
                  others))
        ])
      ]

  -- When the other writers, at whatever moments they act, change and remove no file, neither does
  -- `put_bytes_immutable`, whether it returns or raises.
  pub put_bytes_immutable-Keeps :
      (bucket key : String) (d : p.Bytes) (content_type : String)
      (metadata : Dict String (Option String)) (fs : Dict String p.Bytes)
      → OthersKeep p roots meanwhile
      → Keeps fs (put_bytes_immutable p roots meanwhile bucket key d content_type metadata fs).1
  unfolding put_bytes_immutable lift
  put_bytes_immutable-Keeps bucket key d content_type metadata fs others =
      elim (path-cases p roots meanwhile bucket key) [
        | inl (e, bad) ↦ rw bad (λ q x h. h)
        | inr (path, good) ↦
            rw good (put_at-Keeps bucket key path d (p.sha256 d) content_type metadata fs others)
      ]

  -- The other writers create no file of a path.
  abbrev pub LeaveFree : String → Type 0
  LeaveFree q =
      (moment : Moment) (fs : Dict String p.Bytes)
      → get q fs ≡ none
      → get q (meanwhile moment fs) ≡ none

  -- An object that is returned and does not count as existing.
  abbrev Created : Result StorageError StoredObject → Type 0
  Created r = (o : StoredObject) × (r ≡ ok o) × (o.already_exists ≡ false)
