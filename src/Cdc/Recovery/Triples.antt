-- ===== src/Cdc/Recovery/Triples.antt =====
-- Reasoning about the batch processor: what is relied on of the world, how a run may change, and
-- rules for the code's steps.
use mathlib.Core.List.{Mem}
use fintech_payments_data_pl.Prelude.{
  ℕ, ◌+◌, String, ◌≡◌, refl, sym, subst, true, Option, some, List, [], ◌∷◌, ◌++◌, Result, ok, err,
  pure, raise, continue, ◌>>=◌, answer, rescue, finally, All, ◌⊎◌,
}
use fintech_payments_data_pl.Prelude.Dict.{Dict}
use fintech_payments_data_pl.Storage.{StoredObject}
use fintech_payments_data_pl.Cdc.Models.Batch.{CdcBatch}
use fintech_payments_data_pl.Cdc.Manifest.{BatchManifestRecord, Table, select_row}
use fintech_payments_data_pl.Cdc.Manifest.Methods.{is_durable}
use fintech_payments_data_pl.Cdc.Manifest.Progress.{Progress, Progress-refl, Progress-trans}
use fintech_payments_data_pl.Cdc.Manifest.Backed.{AllBacked}
use fintech_payments_data_pl.Cdc.Retry.{Raised}
use fintech_payments_data_pl.Cdc.Storage.{SerializedParquet}
use fintech_payments_data_pl.Cdc.Recovery.{Services, Run, Step}

-- An offset that Kafka was asked to store.
pub record Commit : Type 0 where
  pub topic : String
  pub partition : ℕ
  pub next_offset : ℕ

-- No object is lost and no offset is committed.
abbrev pub Grows :
    {W : Type 0} → (W → String → String → Type 0) → (W → List Commit) → W → W → Type 0
Grows Held commits w w' =
    ((uri sum : String) → Held w uri sum → Held w' uri sum) × (commits w' ≡ commits w)

-- What the processor relies on: an object that the storage reports or has stored stays at its URI
-- with its checksum; offsets are committed by `commit_offset` alone, which may also fail after the
-- broker has stored the offset.
pub record IsReliable (sv : Services) : Type 1 where
  pub Held : sv.World → String → String → Type 0
  pub commits : sv.World → List Commit
  pub stat_grows :
      (bucket key : String) (w : sv.World) → Grows Held commits w (sv.backend.stat bucket key w).1
  pub stat_held :
      (bucket key : String) (w : sv.World) (o : StoredObject) (w' : sv.World)
      → sv.backend.stat bucket key w ≡ (ok (some o), w')
      → Held w' o.uri o.checksum_sha256
  pub put_grows :
      (bucket key : String) (p : SerializedParquet) (content_type : String)
      (metadata : Dict String (Option String)) (w : sv.World)
      → Grows Held commits w (sv.backend.put_immutable bucket key p content_type metadata w).1
  pub put_held :
      (bucket key : String) (p : SerializedParquet) (content_type : String)
      (metadata : Dict String (Option String)) (w : sv.World) (o : StoredObject) (w' : sv.World)
      → sv.backend.put_immutable bucket key p content_type metadata w ≡ (ok o, w')
      → Held w' o.uri o.checksum_sha256
  pub serialize_grows :
      (b : CdcBatch) (at : sv.Instant) (w : sv.World) → Grows Held commits w (sv.serialize b at w).1
  pub unlink_grows : (path : String) (w : sv.World) → Grows Held commits w (sv.unlink path w).1
  pub sleep_grows : (d : ℕ) (w : sv.World) → Grows Held commits w (sv.sleep d w)
  pub open_grows : (w : sv.World) → Grows Held commits w (sv.open_session w).1
  pub close_grows : (w : sv.World) → Grows Held commits w (sv.close_session w).1
  pub commit_holds :
      (topic : String) (partition next : ℕ) (w : sv.World) (uri sum : String)
      → Held w uri sum
      → Held (sv.commit_offset topic partition next w).1 uri sum
  pub commit_done :
      (topic : String) (partition next : ℕ) (w w' : sv.World)
      → sv.commit_offset topic partition next w ≡ (ok tt, w')
      → commits w'
        ≡ commits w ++ record { topic = topic; partition = partition; next_offset = next } ∷ []
  pub commit_adds :
      (topic : String) (partition next : ℕ) (w : sv.World)
      → let w' = (sv.commit_offset topic partition next w).1 in
        (commits w' ≡ commits w)
        ⊎ (commits w'
            ≡ commits w ++ record { topic = topic; partition = partition; next_offset = next } ∷ [])

-- The row of a committed offset: durable, and with the offset behind its range.
abbrev pub Covers : Table → Commit → Type 0
Covers t c =
    (id : String) × (r : BatchManifestRecord) × (select_row id t ≡ some r)
    × (is_durable r.status ≡ true)
    × (r.topic ≡ c.topic)
    × (r.partition ≡ c.partition)
    × (c.next_offset ≡ r.offset_end + 1)

module _ (sv : Services) (rel : IsReliable sv) where
  -- Every durable row has an object that is held, and every committed offset a durable row.
  pub record IsSafe (s : Run sv) : Type 0 where
    pub backed : AllBacked (rel.Held s.world) s.table
    pub covered : All (Covers s.table) (rel.commits s.world)

  -- How a run changes from one state to a later one.
  pub record Extends (s s' : Run sv) : Type 0 where
    pub rows : Progress s.table s'.table
    pub objects : (uri sum : String) → rel.Held s.world uri sum → rel.Held s'.world uri sum
    pub offsets : (c : Commit) → Mem c (rel.commits s.world) → Mem c (rel.commits s'.world)
    pub safe : IsSafe s → IsSafe s'

  pub Extends-refl : (s : Run sv) → Extends s s
  Extends-refl s = record {
    rows = Progress-refl s.table;
    objects = λ u c h. h;
    offsets = λ c h. h;
    safe = λ h. h;
  }

  pub Extends-trans : (a b c : Run sv) → Extends a b → Extends b c → Extends a c
  Extends-trans a b c p q = record {
    rows = Progress-trans p.rows q.rows;
    objects = λ u x h. q.objects u x (p.objects u x h);
    offsets = λ c h. q.offsets c (p.offsets c h);
    safe = λ h. q.safe (p.safe h);
  }

  -- A fact that later states keep.
  abbrev pub IsStable : (Run sv → Type 0) → Type 0
  IsStable P = (s s' : Run sv) → Extends s s' → P s → P s'

  abbrev pub Yields : {A : Type 0} → (A → Run sv → Type 0) → Result Raised A → Run sv → Type 0
  Yields Q (ok a) s = Q a s
  Yields Q (err e) s = Unit

  -- From a state with `P` the step leads to a later state, whether it returns or raises, with `Q` of
  -- the value that it returns.
  pub record Triple {A : Type 0} (P : Run sv → Type 0) (m : Step sv A) (Q : A → Run sv → Type 0)
      : Type 0 where
    pub later : (s : Run sv) → P s → Extends s (m s).1
    pub yields : (s : Run sv) → P s → Yields Q (m s).0 (m s).1

  module _ {A : Type 0} (P : Run sv → Type 0) where
    pub Triple-pure :
        (a : A) (Q : A → Run sv → Type 0) → ((s : Run sv) → P s → Q a s) → Triple P (pure a) Q
    Triple-pure a Q h = record { later = λ s p. Extends-refl s; yields = h }

    pub Triple-raise : (e : Raised) (Q : A → Run sv → Type 0) → Triple P (raise e) Q
    Triple-raise e Q = record { later = λ s p. Extends-refl s; yields = λ s p. tt }

    pub Triple-answer :
        (r : Result Raised A) (Q : A → Run sv → Type 0)
        → ((a : A) (s : Run sv) → P s → Q a s)
        → Triple P (answer r) Q
    Triple-answer (ok a) Q h = record { later = λ s p. Extends-refl s; yields = h a }
    Triple-answer (err e) Q h = record { later = λ s p. Extends-refl s; yields = λ s p. tt }

    Yields-weaker :
        (Q R : A → Run sv → Type 0) (r : Result Raised A) (s : Run sv)
        → ((a : A) (s' : Run sv) → Q a s' → R a s')
        → Yields Q r s
        → Yields R r s
    Yields-weaker Q R (ok a) s h k = h a s k
    Yields-weaker Q R (err e) s h k = tt

    pub Triple-weaken :
        (P' : Run sv → Type 0) (m : Step sv A) (Q R : A → Run sv → Type 0)
        → ((s : Run sv) → P s → P' s)
        → ((a : A) (s : Run sv) → Q a s → R a s)
        → Triple P' m Q
        → Triple P m R
    Triple-weaken P' m Q R pre post t = record {
      later = λ s p. t.later s (pre s p);
      yields = λ s p. Yields-weaker Q R (m s).0 (m s).1 post (t.yields s (pre s p));
    }

    -- A stable fact is kept beside what a step yields.
    Yields-framed :
        (Q : A → Run sv → Type 0) (r : Result Raised A) (s s' : Run sv)
        → IsStable P
        → Extends s s'
        → P s
        → Yields Q r s'
        → Yields (λ a x. P x × Q a x) r s'
    Yields-framed Q (ok a) s s' st e p q = (st s s' e p, q)
    Yields-framed Q (err x) s s' st e p q = tt

    pub Triple-keep :
        (m : Step sv A) (Q : A → Run sv → Type 0)
        → IsStable P
        → Triple P m Q
        → Triple P m (λ a s. P s × Q a s)
    Triple-keep m Q st t = record {
      later = t.later;
      yields = λ s p. Yields-framed Q (m s).0 s (m s).1 st (t.later s p) p (t.yields s p);
    }

  module _ {A B : Type 0} (P : Run sv → Type 0) (m : Step sv A) (f : A → Step sv B)
      (Q : A → Run sv → Type 0) (R : B → Run sv → Type 0) (first : Triple P m Q)
      (next : (a : A) → Triple (Q a) (f a) R) where
    bind_later :
        (s : Run sv) (r : Result Raised A) (s' : Run sv)
        → Extends s s'
        → Yields Q r s'
        → Extends s (continue r f s').1
    bind_later s (ok a) s' e q = Extends-trans s s' (f a s').1 e ((next a).later s' q)
    bind_later s (err x) s' e q = e

    bind-Yields :
        (r : Result Raised A) (s' : Run sv)
        → Yields Q r s'
        → Yields R (continue r f s').0 (continue r f s').1
    bind-Yields (ok a) s' q = (next a).yields s' q
    bind-Yields (err x) s' q = tt

    pub Triple-bind : Triple P (m >>= f) R
    Triple-bind = record {
      later = λ s p. bind_later s (m s).0 (m s).1 (first.later s p) (first.yields s p);
      yields = λ s p. bind-Yields (m s).0 (m s).1 (first.yields s p);
    }

  module _ {A : Type 0} (P : Run sv → Type 0) (m : Step sv A) (h : Raised → Step sv A)
      (Q : A → Run sv → Type 0) (stable : IsStable P) (body : Triple P m Q)
      (handler : (e : Raised) → Triple P (h e) Q) where
    rescue_later :
        (s : Run sv) (r : Result Raised A) (s' : Run sv)
        → Extends s s'
        → P s'
        → Extends s (rescue (λ _. (r, s')) h s).1
    rescue_later s (ok a) s' e p = e
    rescue_later s (err x) s' e p = Extends-trans s s' (h x s').1 e ((handler x).later s' p)

    rescue-Yields :
        (s : Run sv) (r : Result Raised A) (s' : Run sv)
        → P s'
        → Yields Q r s'
        → let x = rescue (λ _. (r, s')) h s in Yields Q x.0 x.1
    rescue-Yields s (ok a) s' p q = q
    rescue-Yields s (err x) s' p q = (handler x).yields s' p

    pub Triple-rescue : Triple P (rescue m h) Q
    Triple-rescue = record {
      later =
          λ s p. let e = body.later s p in rescue_later s (m s).0 (m s).1 e (stable s (m s).1 e p);
      yields = λ s p.
          rescue-Yields s (m s).0 (m s).1 (stable s (m s).1 (body.later s p) p) (body.yields s p);
    }

  -- `finally`, whose last step needs nothing.
  module _ {A : Type 0} (P : Run sv → Type 0) (m : Step sv A) (k : Step sv (Unit {0}))
      (Q : A → Run sv → Type 0) (stable : (a : A) → IsStable (Q a)) (body : Triple P m Q)
      (last : Triple (λ s. Unit) k (λ a s. Unit)) where
    finally-Yields :
        (r : Result Raised A) (x : Result Raised (Unit {0})) (s s' : Run sv)
        → Extends s s'
        → Yields Q r s
        → let y = continue x (λ _. answer r) s' in Yields Q y.0 y.1
    finally-Yields (ok a) (ok u) s s' e q = stable a s s' e q
    finally-Yields (ok a) (err x) s s' e q = tt
    finally-Yields (err z) (ok u) s s' e q = tt
    finally-Yields (err z) (err x) s s' e q = tt

    finally_state :
        (r : Result Raised A) (x : Result Raised (Unit {0})) (s' : Run sv)
        → (continue x (λ _. answer r) s').1 ≡ s'
    finally_state r (ok u) s' = refl
    finally_state r (err x) s' = refl

    pub Triple-finally : Triple P (finally m k) Q
    Triple-finally = record {
      later = λ s p.
          let s1 = (m s).1 in
          subst (Extends s) (sym (finally_state (m s).0 (k s1).0 (k s1).1))
            (Extends-trans s s1 (k s1).1 (body.later s p) (last.later s1 tt));
      yields = λ s p.
          let s1 = (m s).1 in
          finally-Yields (m s).0 (k s1).0 s1 (k s1).1 (last.later s1 tt) (body.yields s p);
    }
