-- ===== src/Cdc/Recovery/World.antt =====
-- The processor's calls of the world: what they keep, and that a put stores its object.
use fintech_payments_data_pl.Prelude.{
  String, ◌≡◌, refl, subst, Option, none, some, Result, ok, err, Exec,
}
use fintech_payments_data_pl.Storage.{StoredObject}
use fintech_payments_data_pl.Cdc.Models.Batch.{CdcBatch}
use fintech_payments_data_pl.Cdc.Retry.{Raised}
use fintech_payments_data_pl.Cdc.Retry.Laws.{IsPolicy}
use fintech_payments_data_pl.Cdc.Storage.{SerializedParquet, put_batch, stat_batch, verify_batch}
use fintech_payments_data_pl.Cdc.Storage.Laws.{
  put_batch-keeps, put_batch-ok, stat_batch-keeps, verify_batch-keeps,
}
use fintech_payments_data_pl.Cdc.Recovery.{
  Services, Settings, Run, outside, set_serialized, unlink_serialized, cleanup_serialized,
  serialize_batch, put_once,
}
use fintech_payments_data_pl.Cdc.Recovery.Triples.{
  Grows, IsReliable, Extends, Extends-refl, IsStable, Yields, Triple, Triple-bind, Triple-pure,
  Triple-keep,
}
use fintech_payments_data_pl.Cdc.Recovery.Steps.{
  moved-Extends, Triple-outside, Triple-retrying, Triple-effect,
}

module _ (sv : Services) (rel : IsReliable sv) where
  Grows-refl : (w : sv.World) → Grows rel.Held rel.commits w w
  Grows-refl w = (λ u c h. h, refl)

  -- A call of the world of which only the change matters.
  module _ {A : Type 0} (P : Run sv → Type 0) (stable : IsStable sv rel P)
      (m : Exec Raised sv.World A)
      (grows : (w : sv.World) → Grows rel.Held rel.commits w (m w).1) where
    call-Yields :
        (r : Result Raised A) (s s' : Run sv)
        → Extends sv rel s s'
        → P s
        → Yields sv rel (λ a. P) r s'
    call-Yields (ok a) s s' e p = stable s s' e p
    call-Yields (err x) s s' e p = tt

    pub Triple-call : Triple sv rel P (outside sv m) (λ a. P)
    Triple-call =
        Triple-outside sv rel P m (λ a. P) grows
          λ s p.
            call-Yields (m s.world).0 s (record s { world = (m s.world).1 })
              (moved-Extends sv rel s (m s.world).1 (grows s.world)) p

  -- Setting the local variable changes nothing that matters.
  set_Extends :
      (s : Run sv) (o : Option SerializedParquet) → Extends sv rel s (record s { serialized = o })
  set_Extends s o = record {
    rows = (Extends-refl sv rel s).rows;
    objects = λ u c h. h;
    offsets = λ c h. h;
    safe = λ h. record { backed = h.backed; covered = h.covered };
  }

  pub Triple-set_serialized :
      (P : Run sv → Type 0) (o : Option SerializedParquet)
      → IsStable sv rel P
      → Triple sv rel P (set_serialized sv o) (λ u. P)
  unfolding set_serialized
  Triple-set_serialized P o stable = record {
    later = λ s p. set_Extends s o;
    yields = λ s p. stable s (record s { serialized = o }) (set_Extends s o) p;
  }

  unlink_one :
      (P : Run sv → Type 0) (o : Option SerializedParquet)
      → IsStable sv rel P
      → Triple sv rel P (unlink_serialized sv o) (λ u. P)
  unfolding unlink_serialized
  unlink_one P none stable = Triple-pure sv rel P tt (λ u. P) (λ s p. p)
  unlink_one P (some f) stable =
      Triple-effect sv rel P (sv.unlink f.path) stable (rel.unlink_grows f.path)

  pub Triple-cleanup :
      (P : Run sv → Type 0) → IsStable sv rel P → Triple sv rel P (cleanup_serialized sv) (λ u. P)
  unfolding cleanup_serialized
  Triple-cleanup P stable = record {
    later = λ s p. (unlink_one P s.serialized stable).later s p;
    yields = λ s p. (unlink_one P s.serialized stable).yields s p;
  }

  module _ (st : Settings) (policy : IsPolicy st.retry_policy) (b : CdcBatch) (P : Run sv → Type 0)
      (stable : IsStable sv rel P) where
    pub Triple-serialize : (at : sv.Instant) → Triple sv rel P (serialize_batch sv st b at) (λ p. P)
    unfolding serialize_batch
    Triple-serialize at =
        Triple-bind sv rel P (outside sv (sv.serialize b at)) _ (λ p. P) (λ p. P)
          (Triple-call P stable (sv.serialize b at) (rel.serialize_grows b at))
          λ p.
            Triple-bind sv rel P (set_serialized sv (some p)) _ (λ u. P) (λ p. P)
              (Triple-set_serialized P (some p) stable)
              λ u. Triple-pure sv rel P p (λ p. P) (λ s h. h)

    pub Triple-stat :
        Triple sv rel P (outside sv (stat_batch sv.backend st.bronze_bucket b)) (λ o. P)
    Triple-stat = Triple-call P stable (stat_batch sv.backend st.bronze_bucket b) λ w.
        stat_batch-keeps sv.backend st.bronze_bucket (Grows rel.Held rel.commits w) b w
          (Grows-refl w) (λ key. rel.stat_grows st.bronze_bucket key w)

    pub Triple-verify :
        (sum : String) (uri : Option String)
        → Triple sv rel P (outside sv (verify_batch sv.backend st.bronze_bucket b sum uri)) (λ o. P)
    Triple-verify sum uri =
        Triple-call P stable (verify_batch sv.backend st.bronze_bucket b sum uri) λ w.
          verify_batch-keeps sv.backend st.bronze_bucket (Grows rel.Held rel.commits w) b sum uri w
            (Grows-refl w) (λ key. rel.stat_grows st.bronze_bucket key w)

    -- The object is stored with the checksum of the file.
    abbrev pub Stored : SerializedParquet → StoredObject → Run sv → Type 0
    Stored p o s = rel.Held s.world o.uri p.checksum_sha256

    Stored-Yields :
        (p : SerializedParquet) (at : String) (s : Run sv) (r : Result Raised StoredObject)
        (w : sv.World)
        → put_batch sv.backend st.bronze_bucket b p st.consumer_group at s.world ≡ (r, w)
        → Yields sv rel (Stored p) r (record s { world = w })
    Stored-Yields p at s (ok o) w e =
        let (key, type, m, put, right) =
          put_batch-ok sv.backend st.bronze_bucket b p st.consumer_group at s.world o w e in
        subst (rel.Held w o.uri) right (rel.put_held st.bronze_bucket key p type m s.world o w put)
    Stored-Yields p at s (err x) w e = tt

    Triple-put_batch :
        (p : SerializedParquet) (at : String)
        → Triple sv rel P
            (outside sv (put_batch sv.backend st.bronze_bucket b p st.consumer_group at))
            (λ o s. P s × Stored p o s)
    Triple-put_batch p at = Triple-keep sv rel P _ (Stored p) stable (
        Triple-outside sv rel P (put_batch sv.backend st.bronze_bucket b p st.consumer_group at)
          (Stored p)
          (λ w.
            put_batch-keeps sv.backend st.bronze_bucket (Grows rel.Held rel.commits w) b p
              st.consumer_group at w (Grows-refl w)
              (λ key type m. rel.put_grows st.bronze_bucket key p type m w))
          (λ s h.
            let x = put_batch sv.backend st.bronze_bucket b p st.consumer_group at s.world in
            Stored-Yields p at s x.0 x.1 refl))

    pub Triple-put_once :
        (p : SerializedParquet) (at : sv.Instant)
        → Triple sv rel P (put_once sv st b p at) (λ o s. P s × Stored p o s)
    unfolding put_once
    Triple-put_once p at =
        Triple-retrying sv rel st policy P _ (λ o s. P s × Stored p o s) stable
          (Triple-put_batch p (sv.utc_isoformat at))
