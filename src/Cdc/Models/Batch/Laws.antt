-- ===== src/Cdc/Models/Batch/Laws.antt =====
-- When `build_batch` accepts, and what it then returns: the accepted lists are the runs of events
-- of one topic-partition with consecutive offsets and one entity, date and schema version.
use mathlib.Core.List.{Perm}
use mathlib.Core.List.Perm
use fintech_payments_data_pl.Prelude.{
  ℕ, ◌+◌, String, ◌≡◌, refl, sym, ◌∙◌, ap, ◌≢◌, subst, Bool, true, false, List, [], ◌∷◌, All, arith,
  length, ok, Bool-cases, leb, str_eq, eq_iff, le→leb, inl, inr,
}
use fintech_payments_data_pl.Cdc.Models.{BronzeEvent, TopicPartitionKey, topic_partition, key_eq}
use fintech_payments_data_pl.Cdc.Models.Batch.{
  CdcBatch, batch_of, next_offset, build_batch, build_sorted, build_ordered, sort_by_offset,
  insert_by_offset, offsets_from, any_differs, last_of,
}

-- `b` is the next event after `a` of the same kind.
pub record Follows (a b : BronzeEvent) : Type 0 where
  pub offset : b.kafka_offset ≡ a.kafka_offset + 1
  pub topic : b.kafka_topic ≡ a.kafka_topic
  pub partition : b.kafka_partition ≡ a.kafka_partition
  pub entity : b.entity_name ≡ a.entity_name
  pub date : b.event_date ≡ a.event_date
  pub schema : b.schema_version ≡ a.schema_version

abbrev pub IsRunFrom : BronzeEvent → List BronzeEvent → Type 0
IsRunFrom a [] = Unit
IsRunFrom a (b ∷ es) = Follows a b × IsRunFrom b es

abbrev pub IsRun : List BronzeEvent → Type 0
IsRun [] = Unit
IsRun (a ∷ es) = IsRunFrom a es

insert_before :
    (a b : BronzeEvent) (es : List BronzeEvent)
    → b.kafka_offset ≡ a.kafka_offset + 1
    → insert_by_offset a (b ∷ es) ≡ a ∷ b ∷ es
unfolding insert_by_offset
insert_before a b es h = rw (le→leb a.kafka_offset b.kafka_offset (omega arith))

-- A run is sorted already.
pub sort_by_offset-run : (es : List BronzeEvent) → IsRun es → sort_by_offset es ≡ es
unfolding sort_by_offset
sort_by_offset-run [] h = refl
sort_by_offset-run (a ∷ []) h = refl
sort_by_offset-run (a ∷ b ∷ es) (f, h) =
    rw (sort_by_offset-run (b ∷ es) h) (insert_before a b es f.offset)

offsets_from-run :
    (a : BronzeEvent) (es : List BronzeEvent)
    → IsRunFrom a es
    → offsets_from (a.kafka_offset + 1) es ≡ true
unfolding offsets_from
offsets_from-run a [] h = refl
offsets_from-run a (b ∷ es) (f, h) = ground (arith, offsets_from-run b es h, f.offset)

-- The events of a run all have the first one's partition, entity, date and schema version.
pub record Alike (first e : BronzeEvent) : Type 0 where
  pub topic : e.kafka_topic ≡ first.kafka_topic
  pub partition : e.kafka_partition ≡ first.kafka_partition
  pub entity : e.entity_name ≡ first.entity_name
  pub date : e.event_date ≡ first.event_date
  pub schema : e.schema_version ≡ first.schema_version

any_differs-run :
    (same : BronzeEvent → Bool) (first a : BronzeEvent) (es : List BronzeEvent)
    → ((e : BronzeEvent) → Alike first e → same e ≡ true)
    → Alike first a
    → IsRunFrom a es
    → any_differs same es ≡ false
unfolding any_differs
any_differs-run same first a [] alike ha h = refl
any_differs-run same first a (b ∷ es) alike ha (f, h) =
    let hb : Alike first b = record {
      topic = f.topic ∙ ha.topic;
      partition = f.partition ∙ ha.partition;
      entity = f.entity ∙ ha.entity;
      date = f.date ∙ ha.date;
      schema = f.schema ∙ ha.schema;
    } in
    ground (arith, alike b hb, any_differs-run same first b es alike hb h)

Alike-refl : (e : BronzeEvent) → Alike e e
Alike-refl e = record { topic = refl; partition = refl; entity = refl; date = refl; schema = refl }

-- No test of `build_batch` finds a difference in a run.
none_differ :
    (same : BronzeEvent → Bool) (first : BronzeEvent) (es : List BronzeEvent)
    → ((e : BronzeEvent) → Alike first e → same e ≡ true)
    → IsRunFrom first es
    → any_differs same (first ∷ es) ≡ false
unfolding any_differs
none_differ same first es alike h = ground (
  arith,
  alike first (Alike-refl first),
  any_differs-run same first first es alike (Alike-refl first) h,
)

same_key :
    (first e : BronzeEvent)
    → Alike first e
    → key_eq (topic_partition e) (topic_partition first) ≡ true
same_key first e h = ground (arith, h.topic, h.partition, eq_iff e.kafka_topic first.kafka_topic)

last_of-offset :
    (a : BronzeEvent) (es : List BronzeEvent)
    → IsRunFrom a es
    → (last_of a es).kafka_offset ≡ a.kafka_offset + length es
unfolding last_of
last_of-offset a [] h = omega arith
last_of-offset a (b ∷ es) (f, h) = omega (arith, last_of-offset b es h, f.offset)

-- The events have the offsets from `n` on, one after the other.
abbrev pub AtOffsets : ℕ → List BronzeEvent → Type 0
AtOffsets n [] = Unit
AtOffsets n (e ∷ es) = (e.kafka_offset ≡ n) × AtOffsets (n + 1) es

-- An event of the batch's entity, date and schema version.
pub record OfBatch (b : CdcBatch) (e : BronzeEvent) : Type 0 where
  pub entity : e.entity_name ≡ b.entity_name
  pub date : e.event_date ≡ b.event_date
  pub schema : e.schema_version ≡ b.schema_version

-- What `build_batch` promises about the batch that it makes of a list of events.
pub record IsBatchOf (es : List BronzeEvent) (b : CdcBatch) : Type 0 where
  pub same_events : b.events ≡ es
  pub run : IsRun es
  pub all_here :
      All (λ e. topic_partition e ≡ record { topic = b.topic; partition = b.partition }) es
  pub offsets : AtOffsets b.offset_start es
  pub count : b.offset_start + length es ≡ next_offset b
  pub kinds : All (OfBatch b) es

run-All_here :
    (a : BronzeEvent) (es : List BronzeEvent) (k : TopicPartitionKey)
    → topic_partition a ≡ k
    → IsRunFrom a es
    → All (λ e. topic_partition e ≡ k) (a ∷ es)
run-All_here a [] k e h = (e, tt)
run-All_here a (b ∷ es) k e (f, h) =
    (e, run-All_here b es k (ground (arith, f.topic, f.partition, e)) h)

run-AtOffsets :
    (a : BronzeEvent) (es : List BronzeEvent) → IsRunFrom a es → AtOffsets (a.kafka_offset + 1) es
run-AtOffsets a [] h = tt
run-AtOffsets a (b ∷ es) (f, h) =
    (f.offset, subst (λ n. AtOffsets (n + 1) es) f.offset (run-AtOffsets b es h))

run-OfBatch :
    (c : CdcBatch) (a : BronzeEvent) (es : List BronzeEvent)
    → OfBatch c a
    → IsRunFrom a es
    → All (OfBatch c) (a ∷ es)
run-OfBatch c a [] k h = (k, tt)
run-OfBatch c a (b ∷ es) k (f, h) =
    let k' : OfBatch c b = record {
      entity = f.entity ∙ k.entity;
      date = f.date ∙ k.date;
      schema = f.schema ∙ k.schema;
    } in
    (k, run-OfBatch c b es k' h)

offsets_from-start :
    (a : BronzeEvent) (es : List BronzeEvent)
    → IsRunFrom a es
    → offsets_from a.kafka_offset (a ∷ es) ≡ true
unfolding offsets_from
offsets_from-start a es h = ground (arith, offsets_from-run a es h)

insert_by_offset-perm :
    (e : BronzeEvent) (es : List BronzeEvent) → Perm (insert_by_offset e es) (e ∷ es)
unfolding insert_by_offset
insert_by_offset-perm e [] = Perm.refl (e ∷ [])
insert_by_offset-perm e (x ∷ xs) = elim (Bool-cases (leb e.kafka_offset x.kafka_offset)) [
  | inl before ↦ rw before (Perm.refl (e ∷ x ∷ xs))
  | inr behind ↦
      rw behind (Perm.trans (Perm.cons x (insert_by_offset-perm e xs)) (Perm.swap e x xs))
]

pub sort_by_offset-perm : (es : List BronzeEvent) → Perm (sort_by_offset es) es
unfolding sort_by_offset
sort_by_offset-perm [] = Perm.refl []
sort_by_offset-perm (e ∷ es) =
    Perm.trans (insert_by_offset-perm e (sort_by_offset es)) (Perm.cons e (sort_by_offset-perm es))

-- The five tests of `build_batch` on the events behind the first one.
record Checks (first : BronzeEvent) (start : ℕ) (es : List BronzeEvent) : Type 0 where
  offsets : offsets_from start es ≡ true
  keys : any_differs (λ e. key_eq (topic_partition e) (topic_partition first)) es ≡ false
  entities : any_differs (λ e. str_eq e.entity_name first.entity_name) es ≡ false
  dates : any_differs (λ e. str_eq e.event_date first.event_date) es ≡ false
  schemas : any_differs (λ e. str_eq e.schema_version first.schema_version) es ≡ false

Checks-cons :
    (first : BronzeEvent) (start : ℕ) (b : BronzeEvent) (es : List BronzeEvent)
    → Checks first start (b ∷ es)
    → (b.kafka_offset ≡ start) × Alike first b × Checks first (start + 1) es
unfolding offsets_from any_differs
Checks-cons first start b es c = ground (
  arith,
  eq_iff b.kafka_topic first.kafka_topic,
  eq_iff b.entity_name first.entity_name,
  eq_iff b.event_date first.event_date,
  eq_iff b.schema_version first.schema_version,
)

Follows-of_Alike :
    {first a b : BronzeEvent}
    → b.kafka_offset ≡ a.kafka_offset + 1
    → Alike first a
    → Alike first b
    → Follows a b
Follows-of_Alike h ha hb = record {
  offset = h;
  topic = hb.topic ∙ sym ha.topic;
  partition = hb.partition ∙ sym ha.partition;
  entity = hb.entity ∙ sym ha.entity;
  date = hb.date ∙ sym ha.date;
  schema = hb.schema ∙ sym ha.schema;
}

Checks-run :
    (first a : BronzeEvent) (es : List BronzeEvent)
    → Alike first a
    → Checks first (a.kafka_offset + 1) es
    → IsRunFrom a es
Checks-run first a [] ha c = tt
Checks-run first a (b ∷ es) ha c =
    let (offset, hb, rest) = Checks-cons first (a.kafka_offset + 1) b es c in
    (Follows-of_Alike offset ha hb, Checks-run first b es hb (rw offset rest))

module _ (sha256 : String → String) where
  batch_of-IsBatchOf :
      (a : BronzeEvent) (es : List BronzeEvent)
      → IsRunFrom a es
      → IsBatchOf (a ∷ es) (batch_of sha256 a es)
  batch_of-IsBatchOf a es h = record {
    same_events = refl;
    run = h;
    all_here = run-All_here a es (topic_partition a) refl h;
    offsets = (refl, run-AtOffsets a es h);
    count = omega (arith, last_of-offset a es h);
    kinds =
        run-OfBatch (batch_of sha256 a es) a es
          (record { entity = refl; date = refl; schema = refl }) h;
  }

  build_ordered-run :
      (a : BronzeEvent) (es : List BronzeEvent)
      → IsRunFrom a es
      → build_ordered sha256 a es ≡ ok (batch_of sha256 a es)
  unfolding build_ordered
  build_ordered-run a es h = rw (
    offsets_from-start a es h,
    none_differ (λ e. key_eq (topic_partition e) (topic_partition a)) a es (same_key a) h,
    none_differ (λ e. str_eq e.entity_name a.entity_name) a es (λ e l. (eq_iff _ _).1 l.entity) h,
    none_differ (λ e. str_eq e.event_date a.event_date) a es (λ e l. (eq_iff _ _).1 l.date) h,
    none_differ (λ e. str_eq e.schema_version a.schema_version) a es
        (λ e l. (eq_iff _ _).1 l.schema) h,
  )

  -- A nonempty run becomes a batch of exactly these events, in this order.
  pub build_batch-run :
      (es : List BronzeEvent)
      → es ≢ []
      → IsRun es
      → (b : CdcBatch) × (build_batch sha256 es ≡ ok b) × IsBatchOf es b
  unfolding build_batch
  build_batch-run [] ne h = absurd (ne refl)
  build_batch-run (a ∷ es) ne h = (
    batch_of sha256 a es,
    ap (build_sorted sha256) (sort_by_offset-run (a ∷ es) h) ∙ build_ordered-run a es h,
    batch_of-IsBatchOf a es h,
  )

  build_ordered-Checks :
      (a : BronzeEvent) (es : List BronzeEvent) (b : CdcBatch)
      → build_ordered sha256 a es ≡ ok b
      → Checks a a.kafka_offset (a ∷ es) × (b ≡ batch_of sha256 a es)
  unfolding build_ordered
  build_ordered-Checks a es b h = ground arith

  build_ordered-ok :
      (a : BronzeEvent) (es : List BronzeEvent) (b : CdcBatch)
      → build_ordered sha256 a es ≡ ok b
      → IsBatchOf (a ∷ es) b
  build_ordered-ok a es b h =
      let (checks, e) = build_ordered-Checks a es b h in
      let run = Checks-run a a es (Alike-refl a) (Checks-cons a a.kafka_offset a es checks).2 in
      rw e (batch_of-IsBatchOf a es run)

  build_sorted-ok :
      (es : List BronzeEvent) (b : CdcBatch) → build_sorted sha256 es ≡ ok b → IsBatchOf es b
  unfolding build_sorted
  build_sorted-ok [] b h = cc
  build_sorted-ok (a ∷ es) b h = build_ordered-ok a es b h

  -- A batch that `build_batch` returns holds the events that it was given, each as often, and they
  -- form one run: all of the batch's topic, partition, entity, date and schema version, with the
  -- consecutive offsets that begin at the batch's first and end at its last one.
  pub build_batch-ok :
      (es : List BronzeEvent) (b : CdcBatch)
      → build_batch sha256 es ≡ ok b
      → Perm b.events es × IsBatchOf b.events b
  unfolding build_batch
  build_batch-ok es b h =
      let described = build_sorted-ok (sort_by_offset es) b h in
      (
        subst (λ l. Perm l es) (sym described.same_events) (sort_by_offset-perm es),
        subst (λ l. IsBatchOf l b) (sym described.same_events) described,
      )
