-- ===== src/Cdc/Batching/Session.antt =====
-- Any sequence of calls on a batcher: nothing is lost, repeated or reordered within a key.
use fintech_payments_data_pl.Prelude.{
  ℕ, ◌<◌, ◌≡◌, sym, ◌∙◌, ap, String, Option, List, [], ◌∷◌, ◌++◌, append-nil, All, Result, ok, err,
  arith, pure, continue, subst, ◌>>=◌, none, refl,
}
use fintech_payments_data_pl.Prelude.Dict.{get}
use fintech_payments_data_pl.Cdc.Models.{BronzeEvent, TopicPartitionKey, key_Eq}
use fintech_payments_data_pl.Cdc.Models.Batch.{CdcBatch, BatchError}
use fintech_payments_data_pl.Cdc.Batching.{
  PartitionBatcher, Action, new_batcher, queue, add, flush_due, flush_partitions, flush_all,
}
use fintech_payments_data_pl.Cdc.Batching.Spec.{
  IsValid, IsGoodBatch, Serves, Delivers-refl, Serves-then, delivered, of_key,
}
use fintech_payments_data_pl.Cdc.Batching.Flush.{
  flush_partitions-Serves, flush_due-Serves, flush_all-Serves,
}
use fintech_payments_data_pl.Cdc.Batching.Add.{add-Serves}
use fintech_payments_data_pl.Cdc.Batching.Empties.{flush_all_empties}

-- The calls that consumer.py makes, each with its `now` and the clock's reading.
pub data Call : Type 0 where
  adding : BronzeEvent → Option ℕ → ℕ → Call
  due : Option ℕ → ℕ → Call
  revoked : List TopicPartitionKey → Option ℕ → ℕ → Call

pub fed : List Call → List BronzeEvent
fed [] = []
fed (adding e now clock ∷ calls) = e ∷ fed calls
fed (due now clock ∷ calls) = fed calls
fed (revoked ks now clock ∷ calls) = fed calls

abbrev pub empty_batcher : ℕ → ℕ → PartitionBatcher
empty_batcher size interval = record { batch_size = size; flush_interval = interval; pending = [] }

pub new_batcher-ok :
    (size interval : ℕ) (s : PartitionBatcher)
    → new_batcher size interval ≡ ok s
    → (0 < size) × (s ≡ empty_batcher size interval)
unfolding new_batcher
new_batcher-ok size interval s h = ground arith

pub empty_batcher-IsValid : (size interval : ℕ) → 0 < size → IsValid (empty_batcher size interval)
unfolding get
empty_batcher-IsValid size interval h = record {
  positive = h;
  queues = λ k p e. absurd (cc);
  bounded = λ k p e. absurd (cc);
}

state-join :
    (bs : List CdcBatch) (r : Result BatchError (List CdcBatch) × PartitionBatcher)
    → (continue r.0 (λ cs. pure (bs ++ cs)) r.1).1 ≡ r.1
state-join bs (ok cs, t) = refl
state-join bs (err e, t) = refl

-- What a complete session delivers.
abbrev pub DeliversAll :
    ℕ → List BronzeEvent → Result BatchError (List CdcBatch) × PartitionBatcher → Type 0
DeliversAll size es (ok out, t) =
    All (IsGoodBatch size) out × ((k : TopicPartitionKey) → delivered k out ≡ of_key k es)
DeliversAll size es (err e, t) = ⊥

module _ (sha256 : String → String) where
  call : Call → Action (List CdcBatch)
  call (adding e now clock) = add sha256 e now clock
  call (due now clock) = flush_due sha256 now clock
  call (revoked ks now clock) = flush_partitions sha256 ks now clock

  pub run : List Call → Action (List CdcBatch)
  unfolding call
  run [] = pure []
  run (c ∷ calls) = do batches ← call c; more ← run calls; pure (batches ++ more)

  pub run-Serves :
      (calls : List Call) (s : PartitionBatcher) → IsValid s → Serves s (fed calls) (run calls s)
  unfolding run fed
  run-Serves [] s v = Delivers-refl s v
  run-Serves (adding e now clock ∷ calls) s v =
      Serves-then s (e ∷ []) (fed calls) (add sha256 e now clock s) (run calls)
        (add-Serves sha256 e now clock s v) (λ t w. run-Serves calls t w)
  run-Serves (due now clock ∷ calls) s v =
      Serves-then s [] (fed calls) (flush_due sha256 now clock s) (run calls)
        (flush_due-Serves sha256 now clock s v) (λ t w. run-Serves calls t w)
  run-Serves (revoked ks now clock ∷ calls) s v =
      Serves-then s [] (fed calls) (flush_partitions sha256 ks now clock s) (run calls)
        (flush_partitions-Serves sha256 ks now clock s v) (λ t w. run-Serves calls t w)

  -- The calls and a last `flush_all`, from an empty batcher.
  pub session : List Call → ℕ → Action (List CdcBatch)
  unfolding run
  session calls clock = do
    batches ← run calls
    last ← flush_all sha256 none clock
    pure (batches ++ last)

  DeliversAll-of_Delivers :
      (size interval : ℕ) (es : List BronzeEvent)
      (r : Result BatchError (List CdcBatch) × PartitionBatcher)
      → Serves (empty_batcher size interval) es r
      → ((k : TopicPartitionKey) → queue k r.1 ≡ [])
      → DeliversAll size es r
  unfolding get
  DeliversAll-of_Delivers size interval es (ok out, t) d gone = (
    d.good,
    λ k.
        sym (append-nil (delivered k out))
        ∙ ap (λ l. delivered k out ++ l) (sym (gone k))
        ∙ d.conserved k,
  )
  DeliversAll-of_Delivers size interval es (err e, t) d gone = d

  -- The flush at the end of a session leaves no queue.
  flushed-queue :
      (s : PartitionBatcher) (es : List BronzeEvent) (clock : ℕ) (k : TopicPartitionKey)
      (r : Result BatchError (List CdcBatch) × PartitionBatcher)
      → Serves s es r
      → queue k
          (continue r.0 (λ bs. flush_all sha256 none clock >>= λ last. pure (bs ++ last)) r.1).1
        ≡ []
  flushed-queue s es clock k (ok bs, t) d =
      ap (λ u. queue k u) (state-join bs (flush_all sha256 none clock t))
      ∙ flush_all_empties sha256 none clock t k d.valid
  flushed-queue s es clock k (err e, t) d = elim d [ ]

  -- A complete session from a new batcher returns, and its batches hold, for each partition,
  -- exactly the events that came in for it, in order; every batch is a nonempty run of one
  -- partition, no longer than the batch size.
  pub session-DeliversAll :
      (size interval : ℕ) (calls : List Call) (clock : ℕ) (s : PartitionBatcher)
      → new_batcher size interval ≡ ok s
      → DeliversAll size (fed calls) (session calls clock s)
  unfolding session
  session-DeliversAll size interval calls clock s h =
      let (positive, shape) = new_batcher-ok size interval s h in
      let start = empty_batcher size interval in
      let served = run-Serves calls start (empty_batcher-IsValid size interval positive) in
      rw shape (
        subst (λ es. DeliversAll size es (session calls clock start)) (append-nil (fed calls))
          (DeliversAll-of_Delivers size interval (fed calls ++ []) (session calls clock start)
            (Serves-then start (fed calls) [] (run calls start) (flush_all sha256 none clock) served
              (λ t w. flush_all-Serves sha256 none clock t w))
            (λ k. flushed-queue start (fed calls) clock k (run calls start) served)))
