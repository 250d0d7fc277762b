-- ===== src/Cdc/Consumer/Steps.antt =====
-- The steps of the consumer's loop, up to one turn.
use fintech_payments_data_pl.Prelude.{
  ℕ, ◌+◌, ◌≡◌, refl, sym, ◌∙◌, ap, subst, String, Bool, true, false, Option, none, some, List, [],
  ◌∷◌, ◌++◌, append-nil, length, Result, ok, err, Exec, ◌>>=◌, arith, if◌then◌else◌,
}
use fintech_payments_data_pl.Prelude.Dict.{Dict}
use fintech_payments_data_pl.Cdc.Models.{BronzeEvent, TopicPartitionKey}
use fintech_payments_data_pl.Cdc.Models.Batch.{CdcBatch, BatchError}
use fintech_payments_data_pl.Cdc.Batching.{
  PartitionBatcher, new_batcher, queue, add, flush_due, flush_partition, flush_partitions,
  flush_all,
}
use fintech_payments_data_pl.Cdc.Batching as Batching
use fintech_payments_data_pl.Cdc.Batching.Spec.{IsValid, Serves, Delivers, Delivers-refl}
use fintech_payments_data_pl.Cdc.Batching.Flush.{
  flush_partition-Serves, flush_partitions-Serves, flush_due-Serves,
}
use fintech_payments_data_pl.Cdc.Batching.Add.{add-Serves}
use fintech_payments_data_pl.Cdc.Retry.{Raised}
use fintech_payments_data_pl.Cdc.Consumer.{
  RawKafkaMessage, ParsedMessage, event, poison, heartbeat, kafka_exception, no_assignment,
  Counters, Services, Rebalance, assigned, revoked, Polled, nothing, partition_eof, failed, arrived,
  Turn, Settings, Consumer, outside, batching, count, flush_batch, flush_batches, flush, rebalance,
  rebalance_all, handle, take_polled, turn, reconciled, see_assignment, commit_behind,
  quarantine_and_commit, empty_poll_of, empty_poll, set_empty_polls, is_enough, raw_topic_partition,
}
use fintech_payments_data_pl.Cdc.Consumer.Rules.{
  IsLogged, polled_events, M, Carries, Does, Does-bind, Does-raise, Puts, Puts-bind, Does-Puts,
  state_of, Puts-state, Puts-pure, Puts-raise, world_kept,
}

module _ {W Poison : Type 0} (sv : Services W Poison) (log : IsLogged sv) (sha256 : String → String)
    (st : Settings) (live : st.dry_run ≡ false) where
  Puts-outside :
      {A : Type 0} (m : Exec Raised W A)
      → ((w : W) → log.processed (m w).1 ≡ log.processed w)
      → Puts sv log sha256 st live [] (outside sv sha256 st m)
  unfolding outside
  Puts-outside m same =
      Puts-state sv log sha256 st live (outside sv sha256 st m)
        (λ s. (world_kept sv log sha256 st live s (m s.world).0 (m s.world).1).0)
        (λ s.
          ap log.processed (world_kept sv log sha256 st live s (m s.world).0 (m s.world).1).1
          ∙ same s.world)
        (λ s.
          ap (λ (c : Counters). c.events)
            (world_kept sv log sha256 st live s (m s.world).0 (m s.world).1).2)

  processed_one :
      (b : CdcBatch) (s : Consumer W) (r : Result Raised (Unit {0})) (w : W) (a : Unit {0})
      (t : Consumer W)
      → sv.process b s.world ≡ (r, w)
      → outside sv sha256 st (λ v. (r, w)) s ≡ (ok a, t)
      → (t.batcher ≡ s.batcher)
        × (log.processed t.world ≡ log.processed s.world ++ b ∷ [])
        × (t.counters.events ≡ s.counters.events)
  unfolding outside
  processed_one b s (ok u) w a t e h = (
    ap (λ (x : Consumer W). x.batcher) (sym (state_of sv log sha256 st live h)),
    ap (λ (x : Consumer W). log.processed x.world) (sym (state_of sv log sha256 st live h))
        ∙ log.process_adds b s.world w e,
    ap (λ (x : Consumer W). x.counters.events) (sym (state_of sv log sha256 st live h)),
  )
  processed_one b s (err x) w a t e h = absurd cc

  Puts-process :
      (b : CdcBatch) → Puts sv log sha256 st live (b ∷ []) (outside sv sha256 st (sv.process b))
  unfolding outside
  Puts-process b = record {
    puts = λ s a t e. let x = sv.process b s.world in processed_one b s x.0 x.1 a t refl e;
  }

  Puts-count :
      (f : Counters → Counters)
      → ((c : Counters) → (f c).events ≡ c.events)
      → Puts sv log sha256 st live [] (count sv sha256 st f)
  unfolding count
  Puts-count f same =
      Puts-state sv log sha256 st live (count sv sha256 st f) (λ s. refl) (λ s. refl)
        (λ s. same s.counters)

  Puts-flush_batch :
      (dry : Bool) (b : CdcBatch)
      → dry ≡ false
      → Puts sv log sha256 st live (b ∷ []) (flush_batch sv sha256 st dry b)
  unfolding flush_batch
  Puts-flush_batch true b h = absurd cc
  Puts-flush_batch false b h =
      Puts-bind sv log sha256 st live (b ∷ []) [] _ _ (Puts-process b)
        (λ u. Puts-count _ (λ c. refl))

  pub Puts-flush_batches :
      (bs : List CdcBatch) → Puts sv log sha256 st live bs (flush_batches sv sha256 st bs)
  unfolding flush_batches
  Puts-flush_batches [] = Puts-pure sv log sha256 st live tt
  Puts-flush_batches (b ∷ bs) =
      Puts-bind sv log sha256 st live [] (b ∷ bs) _ _ (Puts-count _ (λ c. refl)) λ u.
        Puts-bind sv log sha256 st live (b ∷ []) bs _ _ (Puts-flush_batch st.dry_run b live)
          (λ u1. Puts-flush_batches bs)

  Puts-if :
      {A : Type 0} (b : Bool) (x y : M sv log sha256 st live A)
      → Puts sv log sha256 st live [] x
      → Puts sv log sha256 st live [] y
      → Puts sv log sha256 st live [] (if b then x else y)
  Puts-if true x y p q = p
  Puts-if false x y p q = q

  Puts-commit_behind :
      (raw : RawKafkaMessage) → Puts sv log sha256 st live [] (commit_behind sv sha256 st raw)
  unfolding commit_behind
  Puts-commit_behind raw =
      Puts-bind sv log sha256 st live [] [] _ _
        (Puts-outside (sv.commit raw.topic raw.partition (raw.offset + 1))
          (log.commit_same raw.topic raw.partition (raw.offset + 1)))
        (λ u. Puts-count _ (λ c. refl))

  Puts-quarantine :
      (dry : Bool) (raw : RawKafkaMessage) (p : Poison)
      → Puts sv log sha256 st live [] (quarantine_and_commit sv sha256 st dry raw p)
  unfolding quarantine_and_commit
  Puts-quarantine true raw p = Puts-pure sv log sha256 st live tt
  Puts-quarantine false raw p =
      Puts-bind sv log sha256 st live [] [] _ _
        (Puts-outside (sv.quarantine p) (log.quarantine_same p)) (λ u. Puts-commit_behind raw)

  Puts-reconciled :
      (ks : List TopicPartitionKey) (o : Option (Dict TopicPartitionKey ℕ))
      → Puts sv log sha256 st live [] (reconciled sv sha256 st ks o)
  unfolding reconciled
  Puts-reconciled [] o = Puts-pure sv log sha256 st live tt
  Puts-reconciled (k ∷ ks) none = Puts-raise sv log sha256 st live kafka_exception []
  Puts-reconciled (k ∷ ks) (some o) = Puts-outside (sv.reconcile o) (log.reconcile_same o)

  -- A method of the batcher, and the processing of what it delivers.
  module _ (m : Batching.Action (List CdcBatch)) (es : List BronzeEvent)
      (serves : (s : PartitionBatcher) → IsValid s → Serves s es (m s)) where
    flushed_Carries :
        (s : Consumer W) (r : Result BatchError (List CdcBatch)) (b : PartitionBatcher)
        (a : Unit {0}) (t : Consumer W)
        → Serves s.batcher es (r, b)
        → (batching sv sha256 st (λ _. (r, b)) >>= flush_batches sv sha256 st) s ≡ (ok a, t)
        → Carries sv log sha256 st live s t es 0
    unfolding batching
    flushed_Carries s (ok bs) b a t d e =
        let (same, logged, counted) =
          (Puts-flush_batches bs).puts (record s { batcher = b }) a t e in
        record {
          out = bs;
          logged = logged;
          delivers = subst (Delivers s.batcher es bs) (sym same) d;
          counted = omega (arith, counted);
        }
    flushed_Carries s (err x) b a t d e = elim d [ ]

    pub Does-flush : Does sv log sha256 st live es 0 (flush sv sha256 st m)
    unfolding flush batching
    Does-flush = record {
      does =
          λ s a t v e. let x = m s.batcher in flushed_Carries s x.0 x.1 a t (serves s.batcher v) e;
    }

  Does-as :
      {A : Type 0} (m : M sv log sha256 st live A) (es fs : List BronzeEvent) (n k : ℕ)
      → es ≡ fs
      → n ≡ k
      → Does sv log sha256 st live es n m
      → Does sv log sha256 st live fs k m
  Does-as m es fs n k e h d =
      subst (λ l. Does sv log sha256 st live l k m) e
        (subst (λ x. Does sv log sha256 st live es x m) h d)

  Does-rebalance : (r : Rebalance) → Does sv log sha256 st live [] 0 (rebalance sv sha256 st r)
  unfolding rebalance see_assignment
  Does-rebalance (assigned ks o) = Does-Puts sv log sha256 st live _ (
      Puts-bind sv log sha256 st live [] [] (see_assignment sv sha256 st) _
        (Puts-state sv log sha256 st live (see_assignment sv sha256 st) (λ s. refl) (λ s. refl)
          (λ s. refl))
        λ u. Puts-if st.dry_run _ _ (Puts-pure sv log sha256 st live tt) (Puts-reconciled ks o))
  Does-rebalance (revoked ks clock) =
      Does-flush (flush_partitions sha256 ks none clock) []
        (λ s v. flush_partitions-Serves sha256 ks none clock s v)

  Does-rebalance_all :
      (rs : List Rebalance) → Does sv log sha256 st live [] 0 (rebalance_all sv sha256 st rs)
  unfolding rebalance_all
  Does-rebalance_all [] = Does-Puts sv log sha256 st live _ (Puts-pure sv log sha256 st live tt)
  Does-rebalance_all (r ∷ rs) =
      Does-bind sv log sha256 st live [] [] 0 0 _ _ (Does-rebalance r) (λ u. Does-rebalance_all rs)

  Does-count_event :
      (f : Counters → Counters)
      → ((c : Counters) → (f c).events ≡ c.events + 1)
      → Does sv log sha256 st live [] 1 (count sv sha256 st f)
  unfolding count
  Does-count_event f more = record {
    does = λ s a t v e. record {
      out = [];
      logged =
          ap (λ (x : Consumer W). log.processed x.world) (sym (state_of sv log sha256 st live e))
          ∙ sym (append-nil (log.processed s.world));
      delivers =
          subst (λ (x : Consumer W). Delivers s.batcher [] [] x.batcher)
            (state_of sv log sha256 st live e) (Delivers-refl s.batcher v);
      counted =
          ap (λ (x : Consumer W). x.counters.events) (sym (state_of sv log sha256 st live e))
          ∙ more s.counters;
    };
  }

  Does-handle :
      (raw : RawKafkaMessage) (p : ParsedMessage Poison) (clock : ℕ)
      → Does sv log sha256 st live
          (polled_events (arrived raw p clock))
          (length (polled_events (arrived raw p clock)))
          (handle sv sha256 st raw p clock)
  unfolding handle
  Does-handle raw (event e) clock =
      Does-bind sv log sha256 st live [] (e ∷ []) 1 0 _ _ (Does-count_event _ (λ c. refl)) λ u.
        Does-flush (add sha256 e none clock) (e ∷ []) (λ s v. add-Serves sha256 e none clock s v)
  Does-handle raw (poison p) clock =
      Does-bind sv log sha256 st live [] [] 0 0 _ _
        (Does-Puts sv log sha256 st live _ (Puts-count _ (λ c. refl)))
        λ u.
          Does-bind sv log sha256 st live [] [] 0 0 _ _
            (Does-flush (flush_partition sha256 (raw_topic_partition raw) none clock) []
              (λ s v. flush_partition-Serves sha256 (raw_topic_partition raw) none clock s v))
            λ u1. Does-Puts sv log sha256 st live _ (Puts-quarantine st.dry_run raw p)
  Does-handle raw heartbeat clock = Does-Puts sv log sha256 st live _ (
      Puts-bind sv log sha256 st live [] [] _ _ (Puts-count _ (λ c. refl))
        λ u. Puts-if st.dry_run _ _ (Puts-pure sv log sha256 st live tt) (Puts-commit_behind raw))

  Puts-set_empty_polls : Puts sv log sha256 st live [] (set_empty_polls sv sha256 st)
  unfolding set_empty_polls
  Puts-set_empty_polls =
      Puts-state sv log sha256 st live (set_empty_polls sv sha256 st) (λ s. refl) (λ s. refl)
        (λ s. refl)

  Puts-is_enough : Puts sv log sha256 st live [] (is_enough sv sha256 st)
  unfolding is_enough
  Puts-is_enough =
      Puts-state sv log sha256 st live (is_enough sv sha256 st) (λ s. refl) (λ s. refl) (λ s. refl)

  Puts-empty_poll_of :
      (seen passed : Bool) → Puts sv log sha256 st live [] (empty_poll_of sv sha256 st seen passed)
  unfolding empty_poll_of
  Puts-empty_poll_of false true = Puts-raise sv log sha256 st live no_assignment []
  Puts-empty_poll_of false false = Puts-pure sv log sha256 st live false
  Puts-empty_poll_of true passed =
      Puts-state sv log sha256 st live (empty_poll_of sv sha256 st true passed) (λ s. refl)
        (λ s. refl) (λ s. refl)

  Puts-empty_poll : (passed : Bool) → Puts sv log sha256 st live [] (empty_poll sv sha256 st passed)
  unfolding empty_poll
  Puts-empty_poll passed = record {
    puts = λ s a t e. (Puts-empty_poll_of s.assignment_seen passed).puts s a t e;
  }

  -- A step without events before others.
  Does-first :
      {A B : Type 0} (es : List BronzeEvent) (n : ℕ) (m : M sv log sha256 st live A)
      (f : A → M sv log sha256 st live B)
      → Does sv log sha256 st live [] 0 m
      → ((a : A) → Does sv log sha256 st live es n (f a))
      → Does sv log sha256 st live es n (m >>= f)
  Does-first es n m f first next =
      Does-as (m >>= f) es es (0 + n) n refl (omega arith)
        (Does-bind sv log sha256 st live [] es 0 n m f first next)

  Does-take_polled :
      (p : Polled Poison)
      → Does sv log sha256 st live
          (polled_events p)
          (length (polled_events p))
          (take_polled sv sha256 st p)
  unfolding take_polled
  Does-take_polled (nothing clock passed) =
      Does-bind sv log sha256 st live [] [] 0 0 _ _
        (Does-flush (flush_due sha256 none clock) []
          (λ s v. flush_due-Serves sha256 none clock s v))
        λ u.
          Does-Puts sv log sha256 st live _
            (Puts-if st.once _ _ (Puts-empty_poll passed) (Puts-pure sv log sha256 st live false))
  Does-take_polled partition_eof = Does-Puts sv log sha256 st live _ (
      Puts-bind sv log sha256 st live [] [] _ _ Puts-set_empty_polls
        (λ u. Puts-pure sv log sha256 st live false))
  Does-take_polled failed = Does-raise sv log sha256 st live kafka_exception [] 0
  Does-take_polled (arrived raw p clock) =
      let es = polled_events (arrived raw p clock) in
      Does-first es (length es) _ _ (Does-Puts sv log sha256 st live _ Puts-set_empty_polls) λ u.
        Does-first es (length es) (count sv sha256 st (λ c. record c { polled = c.polled + 1 })) _
          (Does-Puts sv log sha256 st live _
            (Puts-count (λ c. record c { polled = c.polled + 1 }) (λ c. refl)))
          λ u1. Does-as _ (es ++ []) es (length es + 0) (length es) (append-nil es) (omega arith) (
            Does-bind sv log sha256 st live es [] (length es) 0 _ _ (Does-handle raw p clock)
              (λ u2. Does-Puts sv log sha256 st live _ Puts-is_enough))

  pub Does-turn :
      (t : Turn Poison)
      → Does sv log sha256 st live
          (polled_events t.polled)
          (length (polled_events t.polled))
          (turn sv sha256 st t)
  unfolding turn
  Does-turn t =
      Does-first (polled_events t.polled) (length (polled_events t.polled)) _ _
        (Does-rebalance_all t.rebalances) (λ u. Does-take_polled t.polled)
