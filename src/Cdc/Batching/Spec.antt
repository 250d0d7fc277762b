-- ===== src/Cdc/Batching/Spec.antt =====
-- The batcher as a first-in first-out queue for each key: what waits, what was delivered, and the
-- contract of a method.
use fintech_payments_data_pl.Prelude.{
  ℕ, ◌≤◌, ◌<◌, ◌≡◌, ◌≢◌, refl, sym, ◌∙◌, ap, some, List, [], ◌∷◌, ◌++◌, append_assoc, All,
  All-append, length, select, select-append, take_all, drop_all, Result, ok, err, arith,
  if◌then◌else◌, continue, pure, ◌>>=◌, subst, append-nil, String,
}
use fintech_payments_data_pl.Prelude.Dict.{get, del}
use fintech_payments_data_pl.Cdc.Models.{
  BronzeEvent, TopicPartitionKey, topic_partition, key_eq, key_eq_iff, key_Eq,
}
use fintech_payments_data_pl.Cdc.Models.Batch.{CdcBatch, BatchError}
use fintech_payments_data_pl.Cdc.Models.Batch.Laws.{IsRun, IsBatchOf, build_batch-run}
use fintech_payments_data_pl.Cdc.Batching.{
  PendingPartition, PartitionBatcher, queue, take_batch, keep_rest,
}

-- The events of a stream that belong to a key, and the key of a batch.
abbrev pub of_key : TopicPartitionKey → List BronzeEvent → List BronzeEvent
of_key k = select (λ e. key_eq (topic_partition e) k)

abbrev pub batch_key : CdcBatch → TopicPartitionKey
batch_key b = record { topic = b.topic; partition = b.partition }

-- The events that a list of batches delivers for a key, in order.
abbrev pub delivered : TopicPartitionKey → List CdcBatch → List BronzeEvent
delivered k [] = []
delivered k (b ∷ bs) =
    let rest = delivered k bs in if key_eq (batch_key b) k then b.events ++ rest else rest

pub delivered-append :
    (k : TopicPartitionKey) (bs cs : List CdcBatch)
    → delivered k (bs ++ cs) ≡ delivered k bs ++ delivered k cs
delivered-append k [] cs = refl
delivered-append k (b ∷ bs) cs =
    ground
      (arith, delivered-append k bs cs, append_assoc b.events (delivered k bs) (delivered k cs))

pub record IsGoodBatch (n : ℕ) (b : CdcBatch) : Type 0 where
  pub nonempty : b.events ≢ []
  pub bounded : length b.events ≤ n
  pub described : IsBatchOf b.events b

-- A queue of one key: a nonempty run of the key's events.
pub record IsQueue (k : TopicPartitionKey) (p : PendingPartition) : Type 0 where
  pub nonempty : p.events ≢ []
  pub run : IsRun p.events
  pub all_here : All (λ e. topic_partition e ≡ k) p.events

pub record IsValid (s : PartitionBatcher) : Type 0 where
  pub positive : 0 < s.batch_size
  pub queues :
      (k : TopicPartitionKey) (p : PendingPartition) → get k s.pending ≡ some p → IsQueue k p
  pub bounded :
      (k : TopicPartitionKey) (p : PendingPartition)
      → get k s.pending ≡ some p
      → length p.events < s.batch_size

-- From `s` the stream `fed` came in, the batches `out` went out, and `s'` is left: for each key,
-- what went out and what waits is what waited and what came in, in order.
pub record Delivers (s : PartitionBatcher) (fed : List BronzeEvent) (out : List CdcBatch)
    (s' : PartitionBatcher) : Type 0 where
  pub valid : IsValid s'
  pub size : s'.batch_size ≡ s.batch_size
  pub good : All (IsGoodBatch s.batch_size) out
  pub conserved :
      (k : TopicPartitionKey) → delivered k out ++ queue k s' ≡ queue k s ++ of_key k fed

-- The contract of a method: it does not raise.
abbrev pub Serves :
    PartitionBatcher
    → List BronzeEvent
    → Result BatchError (List CdcBatch) × PartitionBatcher
    → Type 0
Serves s fed (ok out, s') = Delivers s fed out s'
Serves s fed (err e, s') = ⊥

pub Delivers-refl : (s : PartitionBatcher) → IsValid s → Delivers s [] [] s
Delivers-refl s v = record {
  valid = v;
  size = refl;
  good = tt;
  conserved = λ k. sym (append-nil (queue k s));
}

pub Delivers-trans :
    (s t u : PartitionBatcher) (es fs : List BronzeEvent) (bs cs : List CdcBatch)
    → Delivers s es bs t
    → Delivers t fs cs u
    → Delivers s (es ++ fs) (bs ++ cs) u
Delivers-trans s t u es fs bs cs d f = record {
  valid = f.valid;
  size = f.size ∙ d.size;
  good =
      All-append (IsGoodBatch s.batch_size) bs cs d.good
        (subst (λ n. All (IsGoodBatch n) cs) d.size f.good);
  conserved = λ k. conserved_trans k;
}
  where
    conserved_trans :
        (k : TopicPartitionKey)
        → delivered k (bs ++ cs) ++ queue k u ≡ queue k s ++ of_key k (es ++ fs)
    conserved_trans k =
        ap (λ l. l ++ queue k u) (delivered-append k bs cs)
        ∙ append_assoc (delivered k bs) (delivered k cs) (queue k u)
        ∙ ap (λ l. delivered k bs ++ l) (f.conserved k)
        ∙ sym (append_assoc (delivered k bs) (queue k t) (of_key k fs))
        ∙ ap (λ l. l ++ of_key k fs) (d.conserved k)
        ∙ append_assoc (queue k s) (of_key k es) (of_key k fs)
        ∙ ap (λ l. queue k s ++ l) (sym (select-append (λ e. key_eq (topic_partition e) k) es fs))

-- The batches `bs` went out, and a method that serves goes on from there.
pub Serves-join :
    (s t : PartitionBatcher) (es fs : List BronzeEvent) (bs : List CdcBatch)
    (r : Result BatchError (List CdcBatch) × PartitionBatcher)
    → Delivers s es bs t
    → Serves t fs r
    → Serves s (es ++ fs) (continue r.0 (λ cs. pure (bs ++ cs)) r.1)
Serves-join s t es fs bs (ok cs, u) d e = Delivers-trans s t u es fs bs cs d e
Serves-join s t es fs bs (err x, u) d e = elim e [ ]

-- A method followed by another one, and their batches together.
pub Serves-then :
    (s : PartitionBatcher) (es fs : List BronzeEvent)
    (first : Result BatchError (List CdcBatch) × PartitionBatcher)
    (second : PartitionBatcher → Result BatchError (List CdcBatch) × PartitionBatcher)
    → Serves s es first
    → ((t : PartitionBatcher) → IsValid t → Serves t fs (second t))
    → Serves s (es ++ fs) (continue first.0 (λ bs. second >>= λ cs. pure (bs ++ cs)) first.1)
Serves-then s es fs (ok bs, t) second d f = Serves-join s t es fs bs (second t) d (f t d.valid)
Serves-then s es fs (err e, t) second d f = elim d [ ]

-- The events of a key all are the key's.
pub of_key-All :
    (k : TopicPartitionKey) (es : List BronzeEvent)
    → All (λ e. topic_partition e ≡ k) es
    → of_key k es ≡ es
of_key-All k [] h = refl
of_key-All k (e ∷ es) h =
    rw (((key_eq_iff (topic_partition e) k).1 h.0)) (ap (λ l. e ∷ l) (of_key-All k es h.1))

-- The key of a batch is that of its events.
pub batch_key_of :
    (k : TopicPartitionKey) (b : CdcBatch) (es : List BronzeEvent)
    → es ≢ []
    → IsBatchOf es b
    → All (λ e. topic_partition e ≡ k) es
    → batch_key b ≡ k
batch_key_of k b [] ne d h = absurd (ne refl)
batch_key_of k b (e ∷ es) ne d h = sym d.all_here.0 ∙ h.0

module _ (sha256 : String → String) where
  -- Taking a whole queue returns it as one batch and removes the key.
  pub take_batch-whole :
      (k : TopicPartitionKey) (p : PendingPartition) (now : ℕ) (s : PartitionBatcher)
      → get k s.pending ≡ some p
      → IsQueue k p
      → (b : CdcBatch) × (take_batch sha256 k (length p.events) now s
          ≡ (ok b, record s { pending = del k s.pending }))
        × (b.events ≡ p.events)
        × IsBatchOf b.events b
        × (batch_key b ≡ k)
  unfolding take_batch keep_rest
  take_batch-whole k p now s found q =
      let (b, built, described) = build_batch-run sha256 p.events q.nonempty q.run in
      (
        b,
        ground (arith, take_all p.events, drop_all p.events, built),
        described.same_events,
        subst (λ l. IsBatchOf l b) (sym described.same_events) described,
        batch_key_of k b p.events q.nonempty described q.all_here,
      )
