-- ===== src/Cdc/Batching/Flush.antt =====
-- The flushing methods deliver whole queues.
use native.Mathlib.Nat.{le_of_lt}
use fintech_payments_data_pl.Prelude.{
  ℕ, ◌≤◌, ◌<◌, ◌≡◌, ◌≢◌, refl, sym, ◌∙◌, subst, String, false, Option, none, some, List, [], ◌∷◌,
  append-nil, length, ok, arith, Option-cases, inl, inr, ◌==◌, if◌then◌else◌,
}
use fintech_payments_data_pl.Prelude.Dict.{get, del, keys, get-del}
use fintech_payments_data_pl.Cdc.Models.{TopicPartitionKey, key_eq, key_eq_iff, key_Eq}
use fintech_payments_data_pl.Cdc.Models.Batch.{CdcBatch}
use fintech_payments_data_pl.Cdc.Models.Batch.Laws.{IsBatchOf}
use fintech_payments_data_pl.Cdc.Batching.{
  PendingPartition, PartitionBatcher, queue, observed, flush_partition, flush_partitions, flush_all,
  flush_due, sort_keys, due_keys,
}
use fintech_payments_data_pl.Cdc.Batching.Spec.{
  IsQueue, IsValid, Delivers, Serves, Delivers-refl, batch_key, Serves-then, take_batch-whole,
}

pub length_pos {ℓ} : {A : Type ℓ} (xs : List A) → xs ≢ [] → (length xs == 0) ≡ false
length_pos [] ne = absurd (ne refl)
length_pos (x ∷ xs) ne = ground arith

-- Every queue but that of `k` is in order.
pub record IsValidBut (k : TopicPartitionKey) (s : PartitionBatcher) : Type 0 where
  pub positive : 0 < s.batch_size
  pub queues :
      (j : TopicPartitionKey) (p : PendingPartition)
      → key_eq k j ≡ false
      → get j s.pending ≡ some p
      → IsQueue j p
  pub bounded :
      (j : TopicPartitionKey) (p : PendingPartition)
      → key_eq k j ≡ false
      → get j s.pending ≡ some p
      → length p.events < s.batch_size

pub IsValidBut-of_IsValid :
    (k : TopicPartitionKey) {s : PartitionBatcher} → IsValid s → IsValidBut k s
IsValidBut-of_IsValid k v = record {
  positive = v.positive;
  queues = λ j p _ e. v.queues j p e;
  bounded = λ j p _ e. v.bounded j p e;
}

abbrev pub without : TopicPartitionKey → PartitionBatcher → PartitionBatcher
without k s = record s { pending = del k s.pending }

found_in_rest :
    (k j : TopicPartitionKey) (p : PendingPartition) (s : PartitionBatcher)
    → get j (del k s.pending) ≡ some p
    → (key_eq k j ≡ false) × (get j s.pending ≡ some p)
found_in_rest k j p s e = ground (arith, get-del j k s.pending)

pub without-IsValid :
    (k : TopicPartitionKey) (s : PartitionBatcher) → IsValidBut k s → IsValid (without k s)
without-IsValid k s v = record {
  positive = v.positive;
  queues = λ j p e. let (ne, old) = found_in_rest k j p s e in v.queues j p ne old;
  bounded = λ j p e. let (ne, old) = found_in_rest k j p s e in v.bounded j p ne old;
}

queue-without :
    (k j : TopicPartitionKey) (s : PartitionBatcher)
    → queue j (without k s) ≡ (if key_eq k j then [] else queue j s)
queue-without k j s = ground (arith, get-del j k s.pending)

-- Delivering the whole queue `p` of `k` as the batch `b`.
pub whole-Delivers :
    (k : TopicPartitionKey) (p : PendingPartition) (b : CdcBatch) (s : PartitionBatcher)
    → IsValidBut k s
    → get k s.pending ≡ some p
    → IsQueue k p
    → length p.events ≤ s.batch_size
    → b.events ≡ p.events
    → IsBatchOf b.events b
    → batch_key b ≡ k
    → Delivers s [] (b ∷ []) (without k s)
whole-Delivers k p b s v found q fits same described key = record {
  valid = without-IsValid k s v;
  size = refl;
  good = (
    record {
      nonempty = λ e. q.nonempty (sym same ∙ e);
      bounded = subst (λ l. length l ≤ s.batch_size) (sym same) fits;
      described = described;
    },
    tt,
  );
  conserved = λ j. ground (
    arith,
    get-del j k s.pending,
    key_eq_iff k j,
    key_eq_iff (batch_key b) j,
    append-nil b.events,
    append-nil (queue j s),
  );
}

module _ (sha256 : String → String) where
  pub flush_partition_absent :
      (k : TopicPartitionKey) (now : Option ℕ) (clock : ℕ) (s : PartitionBatcher)
      → get k s.pending ≡ none
      → flush_partition sha256 k now clock s ≡ (ok [], s)
  unfolding flush_partition
  flush_partition_absent k now clock s e = ground arith

  -- What `flush_partition` does with a queue: one batch of all its events, and the key is gone.
  pub flush_partition_found :
      (k : TopicPartitionKey) (now : Option ℕ) (clock : ℕ) (p : PendingPartition)
      (s : PartitionBatcher)
      → get k s.pending ≡ some p
      → IsQueue k p
      → (b : CdcBatch) × (flush_partition sha256 k now clock s ≡ (ok (b ∷ []), without k s))
        × (b.events ≡ p.events)
        × IsBatchOf b.events b
        × (batch_key b ≡ k)
  unfolding flush_partition
  flush_partition_found k now clock p s e q =
      let (b, taken, same, described, key) =
        take_batch-whole sha256 k p (observed now clock) s e q in
      (b, ground (arith, taken, length_pos p.events q.nonempty), same, described, key)

  pub flush_partition-Serves :
      (k : TopicPartitionKey) (now : Option ℕ) (clock : ℕ) (s : PartitionBatcher)
      → IsValid s
      → Serves s [] (flush_partition sha256 k now clock s)
  flush_partition-Serves k now clock s v = elim (Option-cases (get k s.pending)) [
    | inl e ↦ rw (flush_partition_absent k now clock s e) (Delivers-refl s v)
    | inr (p, e) ↦
        let (b, flushed, same, described, key) =
          flush_partition_found k now clock p s e (v.queues k p e) in
        rw flushed (
          whole-Delivers k p b s (IsValidBut-of_IsValid k v) e (v.queues k p e)
            (le_of_lt (v.bounded k p e)) same described key)
  ]

  pub flush_partitions-Serves :
      (ks : List TopicPartitionKey) (now : Option ℕ) (clock : ℕ) (s : PartitionBatcher)
      → IsValid s
      → Serves s [] (flush_partitions sha256 ks now clock s)
  unfolding flush_partitions
  flush_partitions-Serves [] now clock s v = Delivers-refl s v
  flush_partitions-Serves (k ∷ ks) now clock s v =
      Serves-then s [] [] (flush_partition sha256 k now clock s)
        (flush_partitions sha256 ks now clock) (flush_partition-Serves k now clock s v)
        (λ t w. flush_partitions-Serves ks now clock t w)

  pub flush_all-Serves :
      (now : Option ℕ) (clock : ℕ) (s : PartitionBatcher)
      → IsValid s
      → Serves s [] (flush_all sha256 now clock s)
  unfolding flush_all
  flush_all-Serves now clock s v = flush_partitions-Serves (keys s.pending) now clock s v

  pub flush_due-Serves :
      (now : Option ℕ) (clock : ℕ) (s : PartitionBatcher)
      → IsValid s
      → Serves s [] (flush_due sha256 now clock s)
  unfolding flush_due
  flush_due-Serves now clock s v =
      let at = observed now clock in
      flush_partitions-Serves (sort_keys (due_keys s.flush_interval at s.pending)) (some at) clock s
        v
