-- ===== src/Cdc/Storage/Laws.antt =====
-- What the CDC object store's operations leave and return.
use fintech_payments_data_pl.Prelude.{
  ℕ, String, ◌≡◌, refl, sym, ◌∙◌, ap, subst, not, Option, none, some, Result, ok, err, Exec,
  continue, pure, ◌>>=◌, ◌>>◌, str_eq, eq_iff, arith, Bool-cases, inl, inr,
}
use fintech_payments_data_pl.Prelude.Dict.{Dict}
use fintech_payments_data_pl.Storage.{StoredObject}
use fintech_payments_data_pl.Cdc.Models.Batch.{CdcBatch}
use fintech_payments_data_pl.Cdc.Retry.{Raised}
use fintech_payments_data_pl.Cdc.Storage.{
  SerializedParquet, Backend, verify, check_size, put_batch, stat_batch, verify_found, verify_batch,
  batch_metadata,
}
use fintech_payments_data_pl.Cdc.Storage.Keys.{build_cdc_object_key}

module _ {W : Type 0} where
  pub verify-state :
      (o : StoredObject) (sum : String) (size : Option ℕ) (w : W) → (verify o sum size w).1 ≡ w
  unfolding verify check_size
  verify-state o sum none w = ground arith
  verify-state o sum (some n) w = ground arith

  pub verify-ok :
      (o : StoredObject) (sum : String) (size : Option ℕ) (w w' : W)
      → verify o sum size w ≡ (ok tt, w')
      → (o.checksum_sha256 ≡ sum) × (w' ≡ w)
  unfolding verify check_size
  verify-ok o sum none w w' h = ground (arith, eq_iff o.checksum_sha256 sum)
  verify-ok o sum (some n) w w' h = ground (arith, eq_iff o.checksum_sha256 sum)

  -- A call whose object is then verified.
  abbrev checked : String → Option ℕ → Exec Raised W StoredObject → Exec Raised W StoredObject
  checked sum size m = m >>= λ o. verify o sum size >> pure o

  then_pure-state :
      (r : Result Raised (Unit {0})) (o : StoredObject) (w : W) → (continue r (λ u. pure o) w).1 ≡ w
  then_pure-state (ok u) o w = refl
  then_pure-state (err e) o w = refl

  then_pure-ok :
      (r : Result Raised (Unit {0})) (o p : StoredObject) (w w' : W)
      → continue r (λ u. pure o) w ≡ (ok p, w')
      → (r ≡ ok tt) × (o ≡ p) × (w ≡ w')
  then_pure-ok (ok tt) o p w w' h = (refl, cc, cc)
  then_pure-ok (err e) o p w w' h = absurd cc

  continued-state :
      (sum : String) (size : Option ℕ) (r : Result Raised StoredObject) (w : W)
      → (continue r (λ o. verify o sum size >> pure o) w).1 ≡ w
  continued-state sum size (ok o) w =
      let x = verify o sum size w in then_pure-state x.0 o x.1 ∙ verify-state o sum size w
  continued-state sum size (err e) w = refl

  continued-ok :
      (sum : String) (size : Option ℕ) (r : Result Raised StoredObject) (w : W) (o : StoredObject)
      (w' : W)
      → continue r (λ o. verify o sum size >> pure o) w ≡ (ok o, w')
      → (r ≡ ok o) × (w ≡ w') × (o.checksum_sha256 ≡ sum)
  continued-ok sum size (ok p) w o w' h =
      let x = verify p sum size w in
      let (passed, same, at) = then_pure-ok x.0 p o x.1 w' h in
      let (right, stays) = verify-ok p sum size w x.1 (ap (λ r. (r, x.1)) passed) in
      (ap ok same, sym stays ∙ at, ap (λ (y : StoredObject). y.checksum_sha256) (sym same) ∙ right)
  continued-ok sum size (err e) w o w' h = absurd cc

  pub checked-state :
      (sum : String) (size : Option ℕ) (m : Exec Raised W StoredObject) (w : W)
      → (checked sum size m w).1 ≡ (m w).1
  checked-state sum size m w = continued-state sum size (m w).0 (m w).1

  pub checked-ok :
      (sum : String) (size : Option ℕ) (m : Exec Raised W StoredObject) (w : W) (o : StoredObject)
      (w' : W)
      → checked sum size m w ≡ (ok o, w')
      → (m w ≡ (ok o, w')) × (o.checksum_sha256 ≡ sum)
  checked-ok sum size m w o w' h =
      let (found, same, right) = continued-ok sum size (m w).0 (m w).1 o w' h in
      (ap (λ r. (r, (m w).1)) found ∙ ap (λ x. (ok o, x)) same, right)

  module _ (backend : Backend W) (bucket : String) where
    keyed_put : CdcBatch → SerializedParquet → String → String → String → Exec Raised W StoredObject
    keyed_put b p group at key =
        backend.put_immutable bucket key p "application/vnd.apache.parquet"
          (batch_metadata b group at)

    -- What a storage backend's `put_immutable` and `stat` keep of a state, the batch operations keep.
    put_keyed-keeps :
        (P : W → Type 0) (b : CdcBatch) (p : SerializedParquet) (group at : String) (w : W)
        (r : Result Raised String)
        → P w
        → ((key : String) → P (keyed_put b p group at key w).1)
        → P
            (continue r
              (λ key. checked p.checksum_sha256 (some p.size_bytes) (keyed_put b p group at key))
              w).1
    put_keyed-keeps P b p group at w (ok key) h k =
        subst P
          (sym (checked-state p.checksum_sha256 (some p.size_bytes) (keyed_put b p group at key) w))
          (k key)
    put_keyed-keeps P b p group at w (err e) h k = h

    pub put_batch-keeps :
        (P : W → Type 0) (b : CdcBatch) (p : SerializedParquet) (group at : String) (w : W)
        → P w
        → ((key type : String) (m : Dict String (Option String))
            → P (backend.put_immutable bucket key p type m w).1)
        → P (put_batch backend bucket b p group at w).1
    unfolding put_batch keyed_put
    put_batch-keeps P b p group at w h k =
        put_keyed-keeps P b p group at w (build_cdc_object_key b) h (λ key. k key _ _)

    put_keyed-ok :
        (b : CdcBatch) (p : SerializedParquet) (group at : String) (w : W)
        (r : Result Raised String) (o : StoredObject) (w' : W)
        → continue r
            (λ key. checked p.checksum_sha256 (some p.size_bytes) (keyed_put b p group at key))
            w
          ≡ (ok o, w')
        → (key : String) × (keyed_put b p group at key w ≡ (ok o, w'))
          × (o.checksum_sha256 ≡ p.checksum_sha256)
    put_keyed-ok b p group at w (ok key) o w' h =
        let found =
          checked-ok p.checksum_sha256 (some p.size_bytes) (keyed_put b p group at key) w o w' h in
        (key, found.0, found.1)
    put_keyed-ok b p group at w (err e) o w' h = absurd cc

    -- A put that returns has stored the object, with the checksum of the file.
    pub put_batch-ok :
        (b : CdcBatch) (p : SerializedParquet) (group at : String) (w : W) (o : StoredObject)
        (w' : W)
        → put_batch backend bucket b p group at w ≡ (ok o, w')
        → (key type : String) × (m : Dict String (Option String)) × (backend.put_immutable bucket
              key p type m w
            ≡ (ok o, w'))
          × (o.checksum_sha256 ≡ p.checksum_sha256)
    unfolding put_batch keyed_put
    put_batch-ok b p group at w o w' h =
        let (key, found, right) = put_keyed-ok b p group at w (build_cdc_object_key b) o w' h in
        (key, _, _, found, right)

    stat_keyed-keeps :
        (P : W → Type 0) (w : W) (r : Result Raised String)
        → P w
        → ((key : String) → P (backend.stat bucket key w).1)
        → P (continue r (backend.stat bucket) w).1
    stat_keyed-keeps P w (ok key) h k = k key
    stat_keyed-keeps P w (err e) h k = h

    pub stat_batch-keeps :
        (P : W → Type 0) (b : CdcBatch) (w : W)
        → P w
        → ((key : String) → P (backend.stat bucket key w).1)
        → P (stat_batch backend bucket b w).1
    unfolding stat_batch
    stat_batch-keeps P b w h k = stat_keyed-keeps P w (build_cdc_object_key b) h k

    verify_found-state :
        (sum : String) (uri : Option String) (o : Option StoredObject) (w : W)
        → (verify_found backend bucket sum uri o w).1 ≡ w
    unfolding verify_found
    verify_found-state sum uri none w = refl
    verify_found-state sum none (some o) w = checked-state sum none (pure o) w
    verify_found-state sum (some uri) (some o) w = elim (Bool-cases (not (str_eq o.uri uri))) [
      | inl other ↦ rw other refl
      | inr same ↦ rw same (checked-state sum none (pure o) w)
    ]

    verify_next-state :
        (sum : String) (uri : Option String) (r : Result Raised (Option StoredObject)) (w : W)
        → (continue r (verify_found backend bucket sum uri) w).1 ≡ w
    verify_next-state sum uri (ok o) w = verify_found-state sum uri o w
    verify_next-state sum uri (err e) w = refl

    pub verify_batch-keeps :
        (P : W → Type 0) (b : CdcBatch) (sum : String) (uri : Option String) (w : W)
        → P w
        → ((key : String) → P (backend.stat bucket key w).1)
        → P (verify_batch backend bucket b sum uri w).1
    unfolding verify_batch
    verify_batch-keeps P b sum uri w h k =
        let x = stat_batch backend bucket b w in
        subst P (sym (verify_next-state sum uri x.0 x.1)) (stat_batch-keeps P b w h k)
