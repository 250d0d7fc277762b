-- ===== src/Cdc/Consumer/Runs.antt =====
-- A run of the consumer's loop that returns has processed every event that it has polled.
use fintech_payments_data_pl.Prelude.{
  ℕ, ◌+◌, ◌≡◌, refl, sym, ◌∙◌, ap, subst, String, Bool, true, false, none, List, [], ◌∷◌, ◌++◌,
  append-nil, length, length-append, Result, ok, err, pure, raise_if, continue, ◌>>=◌, ◌>>◌, arith,
  if◌then◌else◌, All,
}
use fintech_payments_data_pl.Prelude.Dict.{get}
use fintech_payments_data_pl.Cdc.Models.{TopicPartitionKey}
use fintech_payments_data_pl.Cdc.Models.Batch.{CdcBatch, BatchError}
use fintech_payments_data_pl.Cdc.Batching.{
  PartitionBatcher, new_batcher, queue, add, flush_due, flush_partition, flush_partitions,
  flush_all,
}
use fintech_payments_data_pl.Cdc.Batching as Batching
use fintech_payments_data_pl.Cdc.Batching.Spec.{IsValid, IsGoodBatch, delivered, of_key}
use fintech_payments_data_pl.Cdc.Batching.Flush.{flush_all-Serves}
use fintech_payments_data_pl.Cdc.Batching.Empties.{flush_all_empties}
use fintech_payments_data_pl.Cdc.Consumer.{
  ConsumerError, Services, Turn, Settings, Consumer, ConsumerRunResult, batching, flush_batches,
  flush, unless_signalled, turn, run_turns, run_loop, run, close_consumer, report, bad_limit,
  bad_max_messages,
}
use fintech_payments_data_pl.Cdc.Consumer.Rules.{
  IsLogged, polled_events, events_of, M, Carries, Carries-refl, Carries-trans, state_of,
}
use fintech_payments_data_pl.Cdc.Consumer.Steps.{Does-turn, Does-flush, Puts-flush_batches}
use fintech_payments_data_pl.Cdc.Batching.Session.{
  new_batcher-ok, empty_batcher, empty_batcher-IsValid,
}

module _ {W Poison : Type 0} (sv : Services W Poison) (log : IsLogged sv) (sha256 : String → String)
    (st : Settings) (live : st.dry_run ≡ false) where
  -- The turns that a run takes.
  record Ran (ts : List (Turn Poison)) (s t : Consumer W) : Type 0 where
    pub done : List (Turn Poison)
    pub rest : List (Turn Poison)
    pub split : ts ≡ done ++ rest
    pub carries : Carries sv log sha256 st live s t (events_of done) (length (events_of done))

  Ran-step :
      (t : Turn Poison) (ts : List (Turn Poison)) (s u v : Consumer W)
      → Carries sv log sha256 st live s u (polled_events t.polled) (length (polled_events t.polled))
      → Ran ts u v
      → Ran (t ∷ ts) s v
  Ran-step t ts s u v c r = record {
    done = t ∷ r.done;
    rest = r.rest;
    split = ap (λ l. t ∷ l) r.split;
    carries =
        let es = polled_events t.polled in
        subst (Carries sv log sha256 st live s v (es ++ events_of r.done))
          (sym (length-append es (events_of r.done)))
          (Carries-trans sv log sha256 st live s u v es (events_of r.done) (length es)
            (length (events_of r.done)) c r.carries);
  }

  Ran-now : (ts : List (Turn Poison)) (s : Consumer W) → IsValid s.batcher → Ran ts s s
  Ran-now ts s v = record {
    done = [];
    rest = ts;
    split = refl;
    carries = Carries-refl sv log sha256 st live s v;
  }

  stopped :
      (t : Turn Poison) (ts : List (Turn Poison)) (s u : Consumer W) (r : Result ConsumerError Bool)
      (a : Unit {0}) (v : Consumer W)
      → ((stop : Bool)
          → r ≡ ok stop
          → Carries sv log sha256 st live s u
              (polled_events t.polled)
              (length (polled_events t.polled)))
      → ((w : Consumer W)
          → IsValid u.batcher
          → run_turns sv sha256 st ts u ≡ (ok a, w)
          → Ran ts u w)
      → continue r (λ stop. if stop then pure tt else run_turns sv sha256 st ts) u ≡ (ok a, v)
      → Ran (t ∷ ts) s v
  stopped t ts s u (ok true) a v c next e =
      subst (Ran (t ∷ ts) s) (state_of sv log sha256 st live e)
        (Ran-step t ts s u u (c true refl) (Ran-now ts u (c true refl).delivers.valid))
  stopped t ts s u (ok false) a v c next e =
      Ran-step t ts s u v (c false refl) (next v (c false refl).delivers.valid e)
  stopped t ts s u (err x) a v c next e = absurd cc

  unless-Ran :
      (signalled : Bool) (ts : List (Turn Poison)) (m : M sv log sha256 st live (Unit {0}))
      (s : Consumer W) (a : Unit {0}) (t : Consumer W)
      → IsValid s.batcher
      → (m s ≡ (ok a, t) → Ran ts s t)
      → unless_signalled sv sha256 st signalled m s ≡ (ok a, t)
      → Ran ts s t
  unfolding unless_signalled
  unless-Ran true ts m s a t v next e =
      subst (Ran ts s) (state_of sv log sha256 st live e) (Ran-now ts s v)
  unless-Ran false ts m s a t v next e = next e

  run_turns-Ran :
      (ts : List (Turn Poison)) (s : Consumer W) (a : Unit {0}) (t : Consumer W)
      → IsValid s.batcher
      → run_turns sv sha256 st ts s ≡ (ok a, t)
      → Ran ts s t
  unfolding run_turns
  run_turns-Ran [] s a t v e = absurd cc
  run_turns-Ran (x ∷ ts) s a t v e =
      unless-Ran x.signalled (x ∷ ts) _ s a t v
        (λ taken.
          let y = turn sv sha256 st x s in
          stopped x ts s y.1 y.0 a t
            (λ stop at.
              (Does-turn sv log sha256 st live x).does s stop y.1 v (ap (λ r. (r, y.1)) at))
            (λ w valid again. run_turns-Ran ts y.1 a w valid again) taken)
        e

  -- The batcher after a flush is the one that the method leaves.
  flushed_batcher :
      (s : Consumer W) (r : Result BatchError (List CdcBatch)) (b : PartitionBatcher) (a : Unit {0})
      (t : Consumer W)
      → (batching sv sha256 st (λ _. (r, b)) >>= flush_batches sv sha256 st) s ≡ (ok a, t)
      → t.batcher ≡ b
  unfolding batching
  flushed_batcher s (ok bs) b a t e =
      ((Puts-flush_batches sv log sha256 st live bs).puts (record s { batcher = b }) a t e).0
  flushed_batcher s (err x) b a t e = absurd cc

  flush-batcher :
      (m : Batching.Action (List CdcBatch)) (s : Consumer W) (a : Unit {0}) (t : Consumer W)
      → flush sv sha256 st m s ≡ (ok a, t)
      → t.batcher ≡ (m s.batcher).1
  unfolding flush batching
  flush-batcher m s a t e = let x = m s.batcher in flushed_batcher s x.0 x.1 a t e

  -- The turns that were taken, what was processed, and no event that waits.
  record Finished (turns : List (Turn Poison)) (s t : Consumer W) : Type 0 where
    pub ran : Ran turns s t
    pub empty : (k : TopicPartitionKey) → queue k t.batcher ≡ []

  last_flush :
      (turns : List (Turn Poison)) (clock : ℕ) (s u : Consumer W)
      (r : Result ConsumerError (Unit {0})) (a : Unit {0}) (t : Consumer W)
      → (r ≡ ok tt → Ran turns s u)
      → continue r (λ _. flush sv sha256 st (flush_all sha256 none clock)) u ≡ (ok a, t)
      → Finished turns s t
  last_flush turns clock s u (ok x) a t ran e =
      let before = ran refl in
      let valid = before.carries.delivers.valid in
      let after =
        (Does-flush sv log sha256 st live (flush_all sha256 none clock) []
            (λ b v. flush_all-Serves sha256 none clock b v)).does
          u a t valid e in
      let es = events_of before.done in
      record {
        ran = record {
          done = before.done;
          rest = before.rest;
          split = before.split;
          carries =
              subst (λ l. Carries sv log sha256 st live s t l (length es)) (append-nil es)
                (subst (Carries sv log sha256 st live s t (es ++ [])) (omega arith) (
                  Carries-trans sv log sha256 st live s u t es [] (length es) 0 before.carries
                    after));
        };
        empty = λ k.
            ap (queue k) (flush-batcher (flush_all sha256 none clock) u a t e)
            ∙ flush_all_empties sha256 none clock u.batcher k valid;
      }
  last_flush turns clock s u (err x) a t ran e = absurd cc

  run_loop-Finished :
      (turns : List (Turn Poison)) (clock : ℕ) (s : Consumer W) (a : Unit {0}) (t : Consumer W)
      → IsValid s.batcher
      → run_loop sv sha256 st turns clock s ≡ (ok a, t)
      → Finished turns s t
  unfolding run_loop
  run_loop-Finished turns clock s a t v e =
      let x = run_turns sv sha256 st turns s in
      last_flush turns clock s x.1 x.0 a t
        (λ at. run_turns-Ran turns s tt x.1 v (ap (λ r. (r, x.1)) at)) e

  -- What a run that returns has done.
  abbrev pub ProcessesAll :
      List (Turn Poison) → Consumer W → ConsumerRunResult → Consumer W → Type 0
  ProcessesAll turns s res t =
      (taken : List (Turn Poison)) × (rest : List (Turn Poison)) × (out : List CdcBatch) × (turns
        ≡ taken ++ rest)
      × (res.counters.events ≡ s.counters.events + length (events_of taken))
      × (log.processed t.world ≡ log.processed s.world ++ out)
      × All (IsGoodBatch s.batcher.batch_size) out
      × ((k : TopicPartitionKey) → delivered k out ≡ of_key k (events_of taken))

  abbrev result_with : {A : Type 0} → A → Consumer W → Result ConsumerError A × Consumer W
  result_with a s = (ok a, s)

  returned :
      {A : Type 0} {a b : A} {x y : Consumer W}
      → result_with a x ≡ result_with b y
      → (a ≡ b) × (x ≡ y)
  returned e = (cc, cc)

  closed_ProcessesAll :
      (turns : List (Turn Poison)) (s u : Consumer W) (r : Result ConsumerError (Unit {0}))
      (res : ConsumerRunResult) (t : Consumer W)
      → ((k : TopicPartitionKey) → queue k s.batcher ≡ [])
      → (r ≡ ok tt → Finished turns s u)
      → (let x = close_consumer sv sha256 st (r, u) in continue x.0 (λ _. report sv sha256 st) x.1)
        ≡ (ok res, t)
      → ProcessesAll turns s res t
  unfolding close_consumer report
  closed_ProcessesAll turns s u (ok x) res t start f e =
      let done = f refl in
      let c = done.ran.carries in
      (
        done.ran.done,
        done.ran.rest,
        c.out,
        done.ran.split,
        ap (λ (y : ConsumerRunResult). y.counters.events) (sym (returned e).0) ∙ c.counted,
        ap (λ (y : Consumer W). log.processed y.world) (sym (returned e).1)
            ∙ log.close_same u.world
            ∙ c.logged,
        c.delivers.good,
        λ k.
            sym (append-nil (delivered k c.out))
            ∙ ap (λ l. delivered k c.out ++ l) (sym (done.empty k))
            ∙ c.delivers.conserved k
            ∙ ap (λ l. l ++ of_key k (events_of done.ran.done)) (start k),
      )
  closed_ProcessesAll turns s u (err x) res t start f e = absurd cc

  limit_ProcessesAll :
      (bad : Bool) (turns : List (Turn Poison)) (clock : ℕ) (s : Consumer W)
      (res : ConsumerRunResult) (t : Consumer W)
      → IsValid s.batcher
      → ((k : TopicPartitionKey) → queue k s.batcher ≡ [])
      → (raise_if bad bad_max_messages
            >> ((λ u. close_consumer sv sha256 st (run_loop sv sha256 st turns clock u))
                >> report sv sha256 st))
          s
        ≡ (ok res, t)
      → ProcessesAll turns s res t
  limit_ProcessesAll true turns clock s res t v start e = absurd cc
  limit_ProcessesAll false turns clock s res t v start e =
      let x = run_loop sv sha256 st turns clock s in
      closed_ProcessesAll turns s x.1 x.0 res t start
        (λ at. run_loop-Finished turns clock s tt x.1 v (ap (λ r. (r, x.1)) at)) e

  no_queue :
      (size interval : ℕ) (k : TopicPartitionKey) → queue k (empty_batcher size interval) ≡ []
  unfolding get
  no_queue size interval k = refl

  -- When a run that is not a dry run returns, from a new batcher, then for some number of turns the
  -- events that arrived in them are those counted, and the batches that were processed hold, for each
  -- partition, exactly these events, in order; every batch is a nonempty run of one partition within
  -- the batch size. It is relied on that `process` alone adds to what is processed, when it returns.
  pub run-ProcessesAll :
      (size interval clock : ℕ) (turns : List (Turn Poison)) (s : Consumer W)
      (res : ConsumerRunResult) (t : Consumer W)
      → new_batcher size interval ≡ ok s.batcher
      → run sv sha256 st turns clock s ≡ (ok res, t)
      → ProcessesAll turns s res t
  unfolding run
  run-ProcessesAll size interval clock turns s res t new e =
      let (positive, shape) = new_batcher-ok size interval s.batcher new in
      limit_ProcessesAll (bad_limit sv sha256 st st.max_messages) turns clock s res t
        (subst IsValid (sym shape) (empty_batcher-IsValid size interval positive))
        (λ k. ap (queue k) shape ∙ no_queue size interval k) e
