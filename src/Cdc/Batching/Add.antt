-- ===== src/Cdc/Batching/Add.antt =====
-- `add` keeps the batcher valid, never raises, and puts the event behind its key's queue.
use native.Mathlib.Nat.{le_of_lt}
use fintech_payments_data_pl.Prelude.{
  ℕ, suc, ◌+◌, ◌-◌, ◌≤◌, ◌<◌, ◌≡◌, ◌≢◌, refl, sym, ◌∙◌, ap, subst, String, true, false, Option,
  none, some, some_inj, List, [], ◌∷◌, ◌++◌, append-nil, All, All-append, length, length-append,
  Result, ok, err, arith, Bool-cases, inl, inr, ◌⊎◌, leb, eq_iff,
}
use fintech_payments_data_pl.Prelude.Dict.{get, put, get-put, get-del}
use fintech_payments_data_pl.Cdc.Models.{
  BronzeEvent, TopicPartitionKey, topic_partition, key_eq, key_eq_iff, key_Eq,
}
use fintech_payments_data_pl.Cdc.Models.Batch.{CdcBatch, BatchError}
use fintech_payments_data_pl.Cdc.Models.Batch.Laws.{Follows, IsRun}
use fintech_payments_data_pl.Cdc.Batching.{
  PendingPartition, PartitionBatcher, queue, observed, get_last?, boundary_changed, is_closed_by,
  append_event, take_batch, flush_partition, drain, close_boundary, append_and_drain, add,
}
use fintech_payments_data_pl.Cdc.Batching.Spec.{
  IsQueue, IsValid, IsGoodBatch, Delivers, Serves, Delivers-refl, of_key, of_key-All, Serves-join,
  take_batch-whole,
}
use fintech_payments_data_pl.Cdc.Batching.Flush.{
  IsValidBut, IsValidBut-of_IsValid, without, whole-Delivers, flush_partition_found,
}

-- The events `es` came in between `s` and `t`.
Delivers-feed :
    (s t u : PartitionBatcher) (es : List BronzeEvent) (out : List CdcBatch)
    → t.batch_size ≡ s.batch_size
    → ((k : TopicPartitionKey) → queue k t ≡ queue k s ++ of_key k es)
    → Delivers t [] out u
    → Delivers s es out u
Delivers-feed s t u es out size came d = record {
  valid = d.valid;
  size = d.size ∙ size;
  good = subst (λ n. All (IsGoodBatch n) out) size d.good;
  conserved = λ k. d.conserved k ∙ append-nil (queue k t) ∙ came k;
}

Serves-feed :
    (s t : PartitionBatcher) (es : List BronzeEvent)
    (r : Result BatchError (List CdcBatch) × PartitionBatcher)
    → t.batch_size ≡ s.batch_size
    → ((k : TopicPartitionKey) → queue k t ≡ queue k s ++ of_key k es)
    → Serves t [] r
    → Serves s es r
Serves-feed s t es (ok out, u) size came d = Delivers-feed s t u es out size came d
Serves-feed s t es (err x, u) size came d = d

same_or_other :
    (k j : TopicPartitionKey) (p r : PendingPartition) (s : PartitionBatcher)
    → get k s.pending ≡ some p
    → get j s.pending ≡ some r
    → (k ≡ j) × (p ≡ r) ⊎ (key_eq k j ≡ false)
same_or_other k j p r s found e = elim (Bool-cases (key_eq k j)) [
  | inl same ↦
      let key = (key_eq_iff k j).0 same in
      inl (key, some_inj (sym found ∙ ap (λ i. get i s.pending) key ∙ e))
  | inr ne ↦ inr ne
]

IsValid-of_But :
    (k : TopicPartitionKey) (p : PendingPartition) (s : PartitionBatcher)
    → IsValidBut k s
    → get k s.pending ≡ some p
    → IsQueue k p
    → length p.events < s.batch_size
    → IsValid s
IsValid-of_But k p s v found q short = record {
  positive = v.positive;
  queues = λ j r e. elim (same_or_other k j p r s found e) [
    | inl (key, value) ↦ subst (λ i. IsQueue i r) key (subst (λ z. IsQueue k z) value q)
    | inr ne ↦ v.queues j r ne e
  ];
  bounded = λ j r e. elim (same_or_other k j p r s found e) [
    | inl (key, value) ↦ subst (λ z. length z.events < s.batch_size) value short
    | inr ne ↦ v.bounded j r ne e
  ];
}

put-IsValidBut :
    (k : TopicPartitionKey) (p : PendingPartition) (s : PartitionBatcher)
    → IsValid s
    → IsValidBut k (record s { pending = put k p s.pending })
put-IsValidBut k p s v = record {
  positive = v.positive;
  queues = λ j r ne e. v.queues j r (ground (arith, get-put j k p s.pending));
  bounded = λ j r ne e. v.bounded j r (ground (arith, get-put j k p s.pending));
}

get_last?-append : (es : List BronzeEvent) (e : BronzeEvent) → get_last? (es ++ e ∷ []) ≡ some e
unfolding get_last?
get_last?-append [] e = refl
get_last?-append (x ∷ []) e = refl
get_last?-append (x ∷ y ∷ es) e = get_last?-append (y ∷ es) e

-- A run grows at its end by an event that follows its last one.
IsRun-append :
    (es : List BronzeEvent) (l e : BronzeEvent)
    → get_last? es ≡ some l
    → IsRun es
    → Follows l e
    → IsRun (es ++ e ∷ [])
unfolding get_last?
IsRun-append [] l e h r f = tt
IsRun-append (x ∷ []) l e h r f = (subst (λ z. Follows z e) (sym (some_inj h)) f, tt)
IsRun-append (x ∷ y ∷ es) l e h r f = (r.0, IsRun-append (y ∷ es) l e h r.1 f)

last-All :
    (k : TopicPartitionKey) (es : List BronzeEvent) (l : BronzeEvent)
    → All (λ e. topic_partition e ≡ k) es
    → get_last? es ≡ some l
    → topic_partition l ≡ k
unfolding get_last?
last-All k [] l h e = cc
last-All k (x ∷ []) l h e = subst (λ z. topic_partition z ≡ k) (some_inj e) h.0
last-All k (x ∷ y ∷ es) l h e = last-All k (y ∷ es) l h.1 e

last_exists : (es : List BronzeEvent) → es ≢ [] → (l : BronzeEvent) × (get_last? es ≡ some l)
unfolding get_last?
last_exists [] ne = absurd (ne refl)
last_exists (x ∷ []) ne = (x, refl)
last_exists (x ∷ y ∷ es) ne = last_exists (y ∷ es) (λ e. cc)

boundary_same :
    (e l : BronzeEvent)
    → boundary_changed e l ≡ false
    → topic_partition e ≡ topic_partition l
    → Follows l e
unfolding boundary_changed
boundary_same e l h same = ground (
  arith,
  eq_iff e.entity_name l.entity_name,
  eq_iff e.event_date l.event_date,
  eq_iff e.schema_version l.schema_version,
)

append-ne-nil : (es : List BronzeEvent) (e : BronzeEvent) → es ++ e ∷ [] ≢ []
append-ne-nil [] e h = cc
append-ne-nil (x ∷ es) e h = cc

-- A queue that the event does not close, with the event behind it.
extended-IsQueue :
    (e : BronzeEvent) (p : PendingPartition) (l : BronzeEvent)
    → IsQueue (topic_partition e) p
    → get_last? p.events ≡ some l
    → boundary_changed e l ≡ false
    → IsQueue (topic_partition e) (record p { events = p.events ++ e ∷ [] })
extended-IsQueue e p l q last same =
    let key = last-All (topic_partition e) p.events l q.all_here last in
    record {
      nonempty = λ h. append-ne-nil p.events e h;
      run = IsRun-append p.events l e last q.run (boundary_same e l same (sym key));
      all_here =
          All-append (λ x. topic_partition x ≡ topic_partition e) p.events (e ∷ []) q.all_here
            (refl, tt);
    }

single-IsQueue :
    (e : BronzeEvent) (now : ℕ)
    → IsQueue (topic_partition e) (record { events = e ∷ []; first_seen_at = now })
single-IsQueue e now = record { nonempty = λ h. cc; run = tt; all_here = (refl, tt) }

abbrev with_queue : TopicPartitionKey → PendingPartition → PartitionBatcher → PartitionBatcher
with_queue k p s = record s { pending = put k p s.pending }

get-with_queue :
    (k : TopicPartitionKey) (p : PendingPartition) (s : PartitionBatcher)
    → get k (with_queue k p s).pending ≡ some p
get-with_queue k p s = ground (arith, get-put k k p s.pending, key_eq_iff k k)

queue_found :
    (k : TopicPartitionKey) (p : PendingPartition) (s : PartitionBatcher)
    → get k s.pending ≡ some p
    → queue k s ≡ p.events
queue_found k p s e = ground arith

queue_absent :
    (k : TopicPartitionKey) (s : PartitionBatcher) → get k s.pending ≡ none → queue k s ≡ []
queue_absent k s e = ground arith

queue-grown :
    (e : BronzeEvent) (p : PendingPartition) (s : PartitionBatcher)
    → p.events ≡ queue (topic_partition e) s ++ e ∷ []
    → (j : TopicPartitionKey)
    → queue j (with_queue (topic_partition e) p s) ≡ queue j s ++ of_key j (e ∷ [])
queue-grown e p s grown j =
    let k = topic_partition e in
    elim (Bool-cases (key_eq k j)) [
      | inl same ↦
          subst (λ i. queue i (with_queue k p s) ≡ queue i s ++ of_key i (e ∷ []))
            ((key_eq_iff k j).0 same)
            (queue_found k p (with_queue k p s) (get-with_queue k p s)
              ∙ grown
              ∙ ap (λ l. queue k s ++ l) (sym (of_key-All k (e ∷ []) (refl, tt))))
      | inr other ↦ ground (arith, get-put j k p s.pending, append-nil (queue j s))
    ]

-- A nonempty queue gives the loop fuel for two rounds.
two_rounds : (es : List BronzeEvent) → es ≢ [] → length es + 1 ≡ suc (suc (length es - 1))
two_rounds [] ne = absurd (ne refl)
two_rounds (e ∷ es) ne = omega arith

closed_by_some :
    (e : BronzeEvent) (o : Option PendingPartition)
    → is_closed_by e o ≡ true
    → (p : PendingPartition) × (o ≡ some p)
unfolding is_closed_by
closed_by_some e none h = cc
closed_by_some e (some p) h = (p, refl)

module _ (sha256 : String → String) where
  drain_short :
      (m : ℕ) (k : TopicPartitionKey) (p : PendingPartition) (now : ℕ) (s : PartitionBatcher)
      → get k s.pending ≡ some p
      → length p.events < s.batch_size
      → drain sha256 (suc m) k now s ≡ (ok [], s)
  unfolding drain
  drain_short m k p now s found short = ground arith

  drain_absent :
      (m : ℕ) (k : TopicPartitionKey) (now : ℕ) (s : PartitionBatcher)
      → get k s.pending ≡ none
      → drain sha256 (suc m) k now s ≡ (ok [], s)
  unfolding drain
  drain_absent m k now s absent = ground arith

  get-without : (k : TopicPartitionKey) (s : PartitionBatcher) → get k (without k s).pending ≡ none
  get-without k s = ground (arith, get-del k k s.pending, key_eq_iff k k)

  drain_full :
      (m : ℕ) (k : TopicPartitionKey) (p : PendingPartition) (now : ℕ) (s : PartitionBatcher)
      (b : CdcBatch)
      → get k s.pending ≡ some p
      → length p.events ≡ s.batch_size
      → take_batch sha256 k (length p.events) now s ≡ (ok b, without k s)
      → drain sha256 (suc (suc m)) k now s ≡ (ok (b ∷ []), without k s)
  unfolding drain
  drain_full m k p now s b found full taken =
      let again = drain_absent m k now (without k s) (get-without k s) in ground (arith, again)

  -- The loop at the queue that was appended to: at most one batch, of the whole queue.
  drain-Serves :
      (m : ℕ) (k : TopicPartitionKey) (p : PendingPartition) (now : ℕ) (s : PartitionBatcher)
      → IsValidBut k s
      → get k s.pending ≡ some p
      → IsQueue k p
      → length p.events ≤ s.batch_size
      → Serves s [] (drain sha256 (suc (suc m)) k now s)
  drain-Serves m k p now s v found q fits = elim (Bool-cases (leb s.batch_size (length p.events))) [
    | inl full ↦
        let (b, taken, same, described, key) = take_batch-whole sha256 k p now s found q in
        rw (drain_full m k p now s b found (ground arith) taken)
          (whole-Delivers k p b s v found q fits same described key)
    | inr short ↦
        rw (drain_short (suc m) k p now s found (ground arith))
          (Delivers-refl s (IsValid-of_But k p s v found q (ground arith)))
  ]

  -- The loop after `p` became the queue of the event's key.
  appended-Serves :
      (e : BronzeEvent) (p : PendingPartition) (now : ℕ) (s : PartitionBatcher)
      → IsValid s
      → IsQueue (topic_partition e) p
      → length p.events ≤ s.batch_size
      → p.events ≡ queue (topic_partition e) s ++ e ∷ []
      → Serves s (e ∷ []) (
          drain sha256
            (length (queue (topic_partition e) (with_queue (topic_partition e) p s)) + 1)
            (topic_partition e)
            now
            (with_queue (topic_partition e) p s))
  appended-Serves e p now s v q fits grown =
      let k = topic_partition e in
      let t = with_queue k p s in
      let found = get-with_queue k p s in
      let fuel : length (queue k t) + 1 ≡ suc (suc (length p.events - 1)) =
        ap (λ l. length l + 1) (queue_found k p t found) ∙ two_rounds p.events q.nonempty in
      Serves-feed s t (e ∷ []) (drain sha256 (length (queue k t) + 1) k now t) refl
        (queue-grown e p s grown)
        (subst (λ n. Serves t [] (drain sha256 n k now t)) (sym fuel)
          (drain-Serves (length p.events - 1) k p now t (put-IsValidBut k p s v) found q fits))

  close_open :
      (e : BronzeEvent) (clock : ℕ) (s : PartitionBatcher)
      → is_closed_by e (get (topic_partition e) s.pending) ≡ false
      → close_boundary sha256 (topic_partition e) e clock s
        ≡ (ok ([], get (topic_partition e) s.pending), s)
  unfolding close_boundary
  close_open e clock s h = rw h

  close_closed :
      (e : BronzeEvent) (clock : ℕ) (s t : PartitionBatcher) (bs : List CdcBatch)
      → is_closed_by e (get (topic_partition e) s.pending) ≡ true
      → flush_partition sha256 (topic_partition e) none clock s ≡ (ok bs, t)
      → close_boundary sha256 (topic_partition e) e clock s ≡ (ok (bs, none), t)
  unfolding close_boundary
  close_closed e clock s t bs h flushed = rw (h, flushed)

  append_none-Serves :
      (e : BronzeEvent) (now : ℕ) (s : PartitionBatcher)
      → IsValid s
      → get (topic_partition e) s.pending ≡ none
      → Serves s (e ∷ []) (append_and_drain sha256 (topic_partition e) e now none s)
  unfolding append_and_drain append_event
  append_none-Serves e now s v absent =
      appended-Serves e (record { events = e ∷ []; first_seen_at = now }) now s v
        (single-IsQueue e now) v.positive
        (ap (λ l. l ++ e ∷ []) (sym (queue_absent (topic_partition e) s absent)))

  append_some-Serves :
      (e : BronzeEvent) (p : PendingPartition) (now : ℕ) (s : PartitionBatcher)
      → IsValid s
      → get (topic_partition e) s.pending ≡ some p
      → is_closed_by e (some p) ≡ false
      → Serves s (e ∷ []) (append_and_drain sha256 (topic_partition e) e now (some p) s)
  unfolding append_and_drain append_event is_closed_by
  append_some-Serves e p now s v found h =
      let q = v.queues (topic_partition e) p found in
      let (l, last) = last_exists p.events q.nonempty in
      appended-Serves e (record p { events = p.events ++ e ∷ [] }) now s v
        (extended-IsQueue e p l q last (ground arith))
        (omega (arith, length-append p.events (e ∷ []), v.bounded (topic_partition e) p found))
        (ap (λ l. l ++ e ∷ []) (sym (queue_found (topic_partition e) p s found)))

  add_open :
      (e : BronzeEvent) (now : Option ℕ) (clock : ℕ) (s : PartitionBatcher)
      (o : Option PendingPartition)
      → IsValid s
      → get (topic_partition e) s.pending ≡ o
      → is_closed_by e o ≡ false
      → Serves s (e ∷ []) (append_and_drain sha256 (topic_partition e) e (observed now clock) o s)
  add_open e now clock s none v found h = append_none-Serves e (observed now clock) s v found
  add_open e now clock s (some p) v found h =
      append_some-Serves e p (observed now clock) s v found h

  -- Whatever waits, `add` returns, keeps the batcher valid and feeds exactly its event.
  pub add-Serves :
      (e : BronzeEvent) (now : Option ℕ) (clock : ℕ) (s : PartitionBatcher)
      → IsValid s
      → Serves s (e ∷ []) (add sha256 e now clock s)
  unfolding add
  add-Serves e now clock s v =
      let k = topic_partition e in
      elim (Bool-cases (is_closed_by e (get k s.pending))) [
        | inl closed ↦
            let (p, found) = closed_by_some e (get k s.pending) closed in
            let (b, flushed, same, described, key) =
              flush_partition_found sha256 k none clock p s found (v.queues k p found) in
            let w =
              whole-Delivers k p b s (IsValidBut-of_IsValid k v) found (v.queues k p found)
                (le_of_lt (v.bounded k p found)) same described key in
            rw (close_closed e clock s (without k s) (b ∷ []) closed flushed) (
              Serves-join s (without k s) [] (e ∷ []) (b ∷ []) _ w
                (append_none-Serves e (observed now clock) (without k s) w.valid (get-without k s)))
        | inr kept ↦ rw (close_open e clock s kept) (
            Serves-join s s [] (e ∷ []) [] _ (Delivers-refl s v)
              (add_open e now clock s (get k s.pending) v refl kept))
      ]
