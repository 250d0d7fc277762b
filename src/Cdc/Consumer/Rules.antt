-- ===== src/Cdc/Consumer/Rules.antt =====
-- Rules for the steps of the consumer's loop: what they deliver, process and count.
use fintech_payments_data_pl.Prelude.{
  ℕ, ◌+◌, ◌≡◌, refl, sym, ◌∙◌, ap, subst, String, false, List, [], ◌∷◌, ◌++◌, append_assoc,
  append-nil, Result, ok, err, pure, raise, continue, ◌>>=◌, arith,
}
use fintech_payments_data_pl.Prelude.Dict.{Dict}
use fintech_payments_data_pl.Cdc.Models.{BronzeEvent, TopicPartitionKey}
use fintech_payments_data_pl.Cdc.Models.Batch.{CdcBatch}
use fintech_payments_data_pl.Cdc.Batching.Spec.{IsValid, Delivers, Delivers-refl, Delivers-trans}
use fintech_payments_data_pl.Cdc.Retry.{Raised}
use fintech_payments_data_pl.Cdc.Consumer.{
  event, poison, heartbeat, ConsumerError, Services, Polled, nothing, partition_eof, failed,
  arrived, Turn, Settings, Consumer, Step, outside,
}

-- The batches that have been processed: `process` adds its batch when it returns, and nothing else
-- adds or removes one.
pub record IsLogged {W Poison : Type 0} (sv : Services W Poison) : Type 0 where
  pub processed : W → List CdcBatch
  pub process_adds :
      (b : CdcBatch) (w w' : W)
      → sv.process b w ≡ (ok tt, w')
      → processed w' ≡ processed w ++ b ∷ []
  pub reconcile_same :
      (o : Dict TopicPartitionKey ℕ) (w : W) → processed (sv.reconcile o w).1 ≡ processed w
  pub quarantine_same : (p : Poison) (w : W) → processed (sv.quarantine p w).1 ≡ processed w
  pub commit_same :
      (topic : String) (partition next : ℕ) (w : W)
      → processed (sv.commit topic partition next w).1 ≡ processed w
  pub close_same : (w : W) → processed (sv.close w) ≡ processed w

-- The events that a turn and a list of turns bring.
abbrev pub polled_events : {Poison : Type 0} → Polled Poison → List BronzeEvent
polled_events (arrived raw (event e) clock) = e ∷ []
polled_events (arrived raw (poison p) clock) = []
polled_events (arrived raw heartbeat clock) = []
polled_events (nothing clock passed) = []
polled_events partition_eof = []
polled_events failed = []

abbrev pub events_of : {Poison : Type 0} → List (Turn Poison) → List BronzeEvent
events_of [] = []
events_of (t ∷ ts) = polled_events t.polled ++ events_of ts

module _ {W Poison : Type 0} (sv : Services W Poison) (log : IsLogged sv) (sha256 : String → String)
    (st : Settings) (live : st.dry_run ≡ false) where
  abbrev pub M : Type 0 → Type 0
  M A = Step sv sha256 st A

  -- From `s` the events came in, batches were processed, and `t` is left; `n` events were counted.
  pub record Carries (s t : Consumer W) (es : List BronzeEvent) (n : ℕ) : Type 0 where
    pub out : List CdcBatch
    pub logged : log.processed t.world ≡ log.processed s.world ++ out
    pub delivers : Delivers s.batcher es out t.batcher
    pub counted : t.counters.events ≡ s.counters.events + n

  pub record Does {A : Type 0} (es : List BronzeEvent) (n : ℕ) (m : M A) : Type 0 where
    pub does :
        (s : Consumer W) (a : A) (t : Consumer W)
        → IsValid s.batcher
        → m s ≡ (ok a, t)
        → Carries s t es n

  pub Carries-refl : (s : Consumer W) → IsValid s.batcher → Carries s s [] 0
  Carries-refl s v = record {
    out = [];
    logged = sym (append-nil (log.processed s.world));
    delivers = Delivers-refl s.batcher v;
    counted = omega arith;
  }

  pub Carries-trans :
      (s t u : Consumer W) (es fs : List BronzeEvent) (n k : ℕ)
      → Carries s t es n
      → Carries t u fs k
      → Carries s u (es ++ fs) (n + k)
  Carries-trans s t u es fs n k c d = record {
    out = c.out ++ d.out;
    logged =
        d.logged ∙ ap (λ l. l ++ d.out) c.logged ∙ append_assoc (log.processed s.world) c.out d.out;
    delivers = Delivers-trans s.batcher t.batcher u.batcher es fs c.out d.out c.delivers d.delivers;
    counted = omega (arith, c.counted, d.counted);
  }

  module _ {A B : Type 0} (es fs : List BronzeEvent) (n k : ℕ) (m : M A) (f : A → M B)
      (first : Does es n m) (next : (a : A) → Does fs k (f a)) where
    bind_Carries :
        (s t : Consumer W) (r : Result ConsumerError A) (u : Consumer W) (b : B)
        → ((a : A) → r ≡ ok a → Carries s t es n)
        → continue r f t ≡ (ok b, u)
        → Carries s u (es ++ fs) (n + k)
    bind_Carries s t (ok a) u b c e =
        let d = c a refl in Carries-trans s t u es fs n k d ((next a).does t b u d.delivers.valid e)
    bind_Carries s t (err x) u b c e = absurd cc

    pub Does-bind : Does (es ++ fs) (n + k) (m >>= f)
    Does-bind = record {
      does = λ s b u v e.
          let x = m s in
          bind_Carries s x.1 x.0 u b (λ a at. first.does s a x.1 v (ap (λ r. (r, x.1)) at)) e;
    }

  pub Does-raise :
      {A : Type 0} (x : ConsumerError) (es : List BronzeEvent) (n : ℕ) → Does {A = A} es n (raise x)
  Does-raise x es n = record { does = λ s a t v e. absurd cc }

  -- A step that leaves the batcher and the count of events, and processes the batches.
  pub record Puts {A : Type 0} (bs : List CdcBatch) (m : M A) : Type 0 where
    pub puts :
        (s : Consumer W) (a : A) (t : Consumer W)
        → m s ≡ (ok a, t)
        → (t.batcher ≡ s.batcher)
          × (log.processed t.world ≡ log.processed s.world ++ bs)
          × (t.counters.events ≡ s.counters.events)

  module _ {A B : Type 0} (bs cs : List CdcBatch) (m : M A) (f : A → M B) (first : Puts bs m)
      (next : (a : A) → Puts cs (f a)) where
    bind_puts :
        (s t : Consumer W) (r : Result ConsumerError A) (u : Consumer W) (b : B)
        → ((a : A)
            → r ≡ ok a
            → (t.batcher ≡ s.batcher)
              × (log.processed t.world ≡ log.processed s.world ++ bs)
              × (t.counters.events ≡ s.counters.events))
        → continue r f t ≡ (ok b, u)
        → (u.batcher ≡ s.batcher)
          × (log.processed u.world ≡ log.processed s.world ++ (bs ++ cs))
          × (u.counters.events ≡ s.counters.events)
    bind_puts s t (ok a) u b c e =
        let (same, logged, counted) = c a refl in
        let (same2, logged2, counted2) = (next a).puts t b u e in
        (
          same2 ∙ same,
          logged2 ∙ ap (λ l. l ++ cs) logged ∙ append_assoc (log.processed s.world) bs cs,
          counted2 ∙ counted,
        )
    bind_puts s t (err x) u b c e = absurd cc

    pub Puts-bind : Puts (bs ++ cs) (m >>= f)
    Puts-bind = record {
      puts = λ s b u e.
          let x = m s in
          bind_puts s x.1 x.0 u b (λ a at. first.puts s a x.1 (ap (λ r. (r, x.1)) at)) e;
    }

  pub Does-Puts : {A : Type 0} (m : M A) → Puts [] m → Does [] 0 m
  Does-Puts m p = record {
    does = λ s a t v e.
        let (same, logged, counted) = p.puts s a t e in
        record {
          out = [];
          logged = logged;
          delivers = subst (Delivers s.batcher [] []) (sym same) (Delivers-refl s.batcher v);
          counted = omega (arith, counted);
        };
  }

  pub state_of :
      {A : Type 0} {a : A} {x : Result ConsumerError A × Consumer W} {t : Consumer W}
      → x ≡ (ok a, t)
      → x.1 ≡ t
  state_of e = ap (λ y. y.1) e

  -- A step that is seen in the final state alone.
  pub Puts-state :
      {A : Type 0} (m : M A)
      → ((s : Consumer W) → (m s).1.batcher ≡ s.batcher)
      → ((s : Consumer W) → log.processed (m s).1.world ≡ log.processed s.world)
      → ((s : Consumer W) → (m s).1.counters.events ≡ s.counters.events)
      → Puts [] m
  Puts-state m b w n = record {
    puts = λ s a t e. (
      ap (λ (x : Consumer W). x.batcher) (sym (state_of e)) ∙ b s,
      ap (λ (x : Consumer W). log.processed x.world) (sym (state_of e))
          ∙ w s
          ∙ sym (append-nil (log.processed s.world)),
      ap (λ (x : Consumer W). x.counters.events) (sym (state_of e)) ∙ n s,
    );
  }

  pub Puts-pure : {A : Type 0} (a : A) → Puts [] (pure a)
  Puts-pure a = Puts-state (pure a) (λ s. refl) (λ s. refl) (λ s. refl)

  pub Puts-raise : {A : Type 0} (x : ConsumerError) (bs : List CdcBatch) → Puts {A = A} bs (raise x)
  Puts-raise x bs = record { puts = λ s a t e. absurd cc }

  pub world_kept :
      {A : Type 0} (s : Consumer W) (r : Result Raised A) (w : W)
      → let x = outside sv sha256 st (λ v. (r, w)) s in
        (x.1.batcher ≡ s.batcher) × (x.1.world ≡ w) × (x.1.counters ≡ s.counters)
  unfolding outside
  world_kept s (ok a) w = (refl, refl, refl)
  world_kept s (err e) w = (refl, refl, refl)
