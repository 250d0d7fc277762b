-- ===== src/Cdc/Recovery/Steps.antt =====
-- The rules for the processor's calls: of the world, of the manifest, and with retries.
use mathlib.Core.List.{Mem, mem-append_left}
use fintech_payments_data_pl.Prelude.{
  ℕ, ◌+◌, String, ◌≡◌, refl, sym, ◌∙◌, ap, subst, List, [], ◌∷◌, Result, ok, err, Exec, All,
  All-append, inl, inr,
}
use fintech_payments_data_pl.Cdc.Manifest.{Table, Action, ManifestError}
use fintech_payments_data_pl.Cdc.Manifest.Progress.{Progress, Progress-refl, Leads-durable}
use fintech_payments_data_pl.Cdc.Manifest.Backed.{AllBacked}
use fintech_payments_data_pl.Cdc.Retry.{Raised, retry_call}
use fintech_payments_data_pl.Cdc.Retry.Laws.{IsPolicy, retry_call-inv, retry_call-ok}
use fintech_payments_data_pl.Cdc.Recovery.{
  Services, Settings, Run, Step, retrying, outside, inside, on_manifest, asleep, raised,
}
use fintech_payments_data_pl.Cdc.Recovery.Triples.{
  Commit, Grows, Covers, IsReliable, Extends, Extends-refl, Extends-trans, IsStable, Yields, Triple,
  Triple-bind, Triple-pure,
}

Covers-later : {t t' : Table} {c : Commit} → Progress t t' → Covers t c → Covers t' c
Covers-later p (id, r, found, durable, topic, partition, next) =
    let (r', found', a) = p.kept id r found in
    (
      id,
      r',
      found',
      Leads-durable a.leads durable,
      a.topic ∙ topic,
      a.partition ∙ partition,
      next ∙ ap (λ x. x + 1) (sym a.offset_end),
    )

All-Covers :
    {t t' : Table} (cs : List Commit) → Progress t t' → All (Covers t) cs → All (Covers t') cs
All-Covers [] p h = tt
All-Covers (c ∷ cs) p h = (Covers-later p h.0, All-Covers cs p h.1)

module _ (sv : Services) (rel : IsReliable sv) where
  -- The world moved on without losing an object or committing an offset.
  pub moved-Extends :
      (s : Run sv) (w : sv.World)
      → Grows rel.Held rel.commits s.world w
      → Extends sv rel s (record s { world = w })
  moved-Extends s w (held, same) = record {
    rows = Progress-refl s.table;
    objects = held;
    offsets = λ c h. subst (Mem c) (sym same) h;
    safe = λ h. record {
      backed = λ id r found d.
          let (uri, sum, u, c, good) = h.backed id r found d in (uri, sum, u, c, held uri sum good);
      covered = subst (All (Covers s.table)) (sym same) h.covered;
    };
  }

  module _ {A : Type 0} (P : Run sv → Type 0) (m : Exec Raised sv.World A)
      (Q : A → Run sv → Type 0) where
    pub Triple-outside :
        ((w : sv.World) → Grows rel.Held rel.commits w (m w).1)
        → ((s : Run sv) → P s → Yields sv rel Q (m s.world).0 (record s { world = (m s.world).1 }))
        → Triple sv rel P (outside sv m) Q
    unfolding outside
    Triple-outside grows post = record {
      later = λ s p. moved-Extends s (m s.world).1 (grows s.world);
      yields = post;
    }

  -- A change of the table that goes forward and keeps the durable rows backed.
  pub written-Extends :
      (s : Run sv) (t : Table)
      → Progress s.table t
      → (AllBacked (rel.Held s.world) s.table → AllBacked (rel.Held s.world) t)
      → Extends sv rel s (record s { table = t })
  written-Extends s t p keep = record {
    rows = p;
    objects = λ u c h. h;
    offsets = λ c h. h;
    safe = λ h. record {
      backed = keep h.backed;
      covered = All-Covers (rel.commits s.world) p h.covered;
    };
  }

  kept-Yields :
      (P : Run sv → Type 0) (r : Result Raised (Unit {0})) (s s' : Run sv)
      → IsStable sv rel P
      → Extends sv rel s s'
      → P s
      → Yields sv rel (λ u x. P x) r s'
  kept-Yields P (ok u) s s' st e p = st s s' e p
  kept-Yields P (err x) s s' st e p = tt

  -- A call of the world that keeps a stable fact.
  pub Triple-effect :
      (P : Run sv → Type 0) (m : Exec Raised sv.World (Unit {0}))
      → IsStable sv rel P
      → ((w : sv.World) → Grows rel.Held rel.commits w (m w).1)
      → Triple sv rel P (outside sv m) (λ u. P)
  Triple-effect P m stable grows =
      Triple-outside P m (λ u. P) grows
        λ s p.
          kept-Yields P (m s.world).0 s (record s { world = (m s.world).1 }) stable
            (moved-Extends s (m s.world).1 (grows s.world)) p

  module _ {A : Type 0} (P : Run sv → Type 0) (m : sv.World → Action A)
      (Q : A → Run sv → Type 0) where
    inside-Yields :
        (s : Run sv) (r : Result ManifestError A) (t : Table)
        → ((a : A) → r ≡ ok a → Q a (record s { table = t }))
        → Yields sv rel Q (raised sv r) (record s { table = t })
    inside-Yields s (ok a) t h = h a refl
    inside-Yields s (err e) t h = tt

    pub Triple-inside :
        ((s : Run sv) → P s → Progress s.table (m s.world s.table).1)
        → ((s : Run sv)
            → P s
            → AllBacked (rel.Held s.world) s.table
            → AllBacked (rel.Held s.world) (m s.world s.table).1)
        → ((s : Run sv) (a : A)
            → P s
            → (m s.world s.table).0 ≡ ok a
            → Q a (record s { table = (m s.world s.table).1 }))
        → Triple sv rel P (inside sv m) Q
    unfolding inside
    Triple-inside forward keep post = record {
      later = λ s p. written-Extends s (m s.world s.table).1 (forward s p) (keep s p);
      yields =
          λ s p. inside-Yields s (m s.world s.table).0 (m s.world s.table).1 (λ a e. post s a p e);
    }

    -- A method of the manifest, with faults at the opening and the closing of its session.
    pub Triple-on_manifest :
        IsStable sv rel P
        → ((a : A) → IsStable sv rel (Q a))
        → ((s : Run sv) → P s → Progress s.table (m s.world s.table).1)
        → ((s : Run sv)
            → P s
            → AllBacked (rel.Held s.world) s.table
            → AllBacked (rel.Held s.world) (m s.world s.table).1)
        → ((s : Run sv) (a : A)
            → P s
            → (m s.world s.table).0 ≡ ok a
            → Q a (record s { table = (m s.world s.table).1 }))
        → Triple sv rel P (on_manifest sv m) Q
    unfolding on_manifest
    Triple-on_manifest stable stable_post forward keep post =
        Triple-bind sv rel P _ _ (λ u. P) Q (Triple-effect P sv.open_session stable rel.open_grows)
          λ u. Triple-bind sv rel P (inside sv m) _ Q Q (Triple-inside forward keep post) λ a.
            Triple-bind sv rel (Q a) _ _ (λ u. Q a) Q
              (Triple-effect (Q a) sv.close_session (stable_post a) rel.close_grows)
              λ u2. Triple-pure sv rel (Q a) a Q (λ s q. q)

  module _ (st : Settings) (policy : IsPolicy st.retry_policy) {A : Type 0} (P : Run sv → Type 0)
      (m : Step sv A) (Q : A → Run sv → Type 0) where
    -- What the attempts keep: a later state with the stable fact.
    Reached : Run sv → Run sv → Type 0
    Reached s u = Extends sv rel s u × P u

    attempt-Reached :
        (s u : Run sv) → IsStable sv rel P → Triple sv rel P m Q → Reached s u → Reached s (m u).1
    unfolding Reached
    attempt-Reached s u stable t (e, p) =
        (Extends-trans sv rel s u (m u).1 e (t.later u p), stable u (m u).1 (t.later u p) p)

    sleep-Reached :
        (s u : Run sv) (d : ℕ) → IsStable sv rel P → Reached s u → Reached s (asleep sv st d u)
    unfolding Reached asleep
    sleep-Reached s u d stable (e, p) =
        let slept = moved-Extends u (sv.sleep d u.world) (rel.sleep_grows d u.world) in
        (Extends-trans sv rel s u (asleep sv st d u) e slept, stable u (asleep sv st d u) slept p)

    retry-Yields :
        (r : Result Raised A) (s : Run sv) → ((a : A) → r ≡ ok a → Q a s) → Yields sv rel Q r s
    retry-Yields (ok a) s h = h a refl
    retry-Yields (err e) s h = tt

    -- A step that is retried.
    pub Triple-retrying :
        IsStable sv rel P → Triple sv rel P m Q → Triple sv rel P (retrying sv st m) Q
    unfolding retrying Reached
    Triple-retrying stable t = record {
      later = λ s p.
          (retry_call-inv (asleep sv st) st.retry_policy m (Reached s) s policy
            (λ u h. attempt-Reached s u stable t h) (λ d u low high h. sleep-Reached s u d stable h)
            (Extends-refl sv rel s, p)).0;
      yields = λ s p.
          let x = retry_call (asleep sv st) st.retry_policy m s in
          retry-Yields x.0 x.1 λ a e.
            let (u, h, returned) =
              retry_call-ok (asleep sv st) st.retry_policy m (Reached s) s a x.1
                (λ v k. attempt-Reached s v stable t k) (λ d v k. sleep-Reached s v d stable k)
                (Extends-refl sv rel s, p) (ap (λ r. (r, x.1)) e) in
            subst (λ y. Yields sv rel Q y.0 y.1) returned (t.yields u h.1);
    }

  -- A Kafka commit of an offset that a durable row covers.
  pub committed_Extends :
      (s : Run sv) (topic : String) (partition next : ℕ)
      → let c : Commit = record { topic = topic; partition = partition; next_offset = next } in
        Covers s.table c
        → Extends sv rel s (record s { world = (sv.commit_offset topic partition next s.world).1 })
  committed_Extends s topic partition next covered =
      let c : Commit = record { topic = topic; partition = partition; next_offset = next } in
      let w = (sv.commit_offset topic partition next s.world).1 in
      let holds = rel.commit_holds topic partition next s.world in
      record {
        rows = Progress-refl s.table;
        objects = holds;
        offsets = λ d m. elim (rel.commit_adds topic partition next s.world) [
          | inl same ↦ subst (Mem d) (sym same) m
          | inr added ↦ subst (Mem d) (sym added) (mem-append_left (c ∷ []) m)
        ];
        safe = λ h. record {
          backed = λ id r found d.
              let (uri, sum, u, e, good) = h.backed id r found d in
              (uri, sum, u, e, holds uri sum good);
          covered = elim (rel.commit_adds topic partition next s.world) [
            | inl same ↦ subst (All (Covers s.table)) (sym same) h.covered
            | inr added ↦
                subst (All (Covers s.table)) (sym added) (
                  All-append (Covers s.table) (rel.commits s.world) (c ∷ []) h.covered
                    (covered, tt))
          ];
        };
      }
