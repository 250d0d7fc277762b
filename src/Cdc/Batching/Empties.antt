-- ===== src/Cdc/Batching/Empties.antt =====
-- Which queues are gone after a flush: all of `flush_all`, and every due one of `flush_due`.
use fintech_payments_data_pl.Prelude.{
  ℕ, ◌+◌, ◌≤◌, ◌≡◌, refl, ◌∙◌, ap, String, Bool, true, false, ◌||◌, Option, none, some, some_inj,
  List, [], ◌∷◌, ◌++◌, Result, ok, err, arith, Option-cases, Bool-cases, inl, inr, if◌then◌else◌,
  pure, continue, ◌>>=◌, ◌≢◌,
}
use fintech_payments_data_pl.Prelude.Dict.{Dict, get, keys, get-del}
use fintech_payments_data_pl.Cdc.Models.{TopicPartitionKey, key_eq, key_eq_iff, key_Eq}
use fintech_payments_data_pl.Cdc.Models.Batch.{CdcBatch, BatchError}
use fintech_payments_data_pl.Cdc.Batching.{
  PendingPartition, PartitionBatcher, queue, observed, flush_partition, flush_partitions, flush_all,
  flush_due, sort_keys, insert_key, due_keys,
}
use fintech_payments_data_pl.Cdc.Batching.Spec.{IsValid, Serves}
use fintech_payments_data_pl.Cdc.Batching.Flush.{
  flush_partition_absent, flush_partition_found, flush_partition-Serves, length_pos,
}

-- The key is in the list.
abbrev pub among : TopicPartitionKey → List TopicPartitionKey → Bool
among j [] = false
among j (k ∷ ks) = key_eq k j || among j ks

-- After an outcome, the queue of `j` is gone if `gone`, and otherwise as in `s`.
abbrev pub Leaves :
    TopicPartitionKey
    → Bool
    → PartitionBatcher
    → Result BatchError (List CdcBatch) × PartitionBatcher
    → Type 0
Leaves j gone s (r, t) = get j t.pending ≡ (if gone then none else get j s.pending)

Leaves-join :
    (j : TopicPartitionKey) (a b : Bool) (s t : PartitionBatcher) (bs : List CdcBatch)
    (r : Result BatchError (List CdcBatch) × PartitionBatcher)
    → get j t.pending ≡ (if a then none else get j s.pending)
    → Leaves j b t r
    → Leaves j (a || b) s (continue r.0 (λ cs. pure (bs ++ cs)) r.1)
Leaves-join j a b s t bs (ok cs, u) h k = ground arith
Leaves-join j a b s t bs (err x, u) h k = ground arith

Leaves-then :
    (j : TopicPartitionKey) (a b : Bool) (s : PartitionBatcher)
    (first : Result BatchError (List CdcBatch) × PartitionBatcher)
    (second : PartitionBatcher → Result BatchError (List CdcBatch) × PartitionBatcher)
    → Serves s [] first
    → Leaves j a s first
    → ((t : PartitionBatcher) → IsValid t → Leaves j b t (second t))
    → Leaves j (a || b) s (continue first.0 (λ bs. second >>= λ cs. pure (bs ++ cs)) first.1)
Leaves-then j a b s (ok bs, t) second d h f = Leaves-join j a b s t bs (second t) h (f t d.valid)
Leaves-then j a b s (err e, t) second d h f = elim d [ ]

-- Every key with a queue is among the keys of the dict.
among-keys :
    (j : TopicPartitionKey) (d : Dict TopicPartitionKey PendingPartition)
    → among j (keys d) ≡ false
    → get j d ≡ none
unfolding keys get
among-keys j [] h = refl
among-keys j ((k, p) ∷ d) h = ground (arith, among-keys j d)

among-insert_key :
    (j k : TopicPartitionKey) (ks : List TopicPartitionKey)
    → among j (insert_key k ks) ≡ (key_eq k j || among j ks)
unfolding insert_key
among-insert_key j k [] = refl
among-insert_key j k (i ∷ ks) = ground (arith, among-insert_key j k ks)

among-sort_keys :
    (j : TopicPartitionKey) (ks : List TopicPartitionKey) → among j (sort_keys ks) ≡ among j ks
unfolding sort_keys
among-sort_keys j [] = refl
among-sort_keys j (k ∷ ks) =
    among-insert_key j k (sort_keys ks) ∙ ap (λ b. key_eq k j || b) (among-sort_keys j ks)

-- A queue that has waited for the interval is among the due keys.
among-due_keys :
    (interval now : ℕ) (j : TopicPartitionKey) (p : PendingPartition)
    (d : Dict TopicPartitionKey PendingPartition)
    → get j d ≡ some p
    → p.events ≢ []
    → p.first_seen_at + interval ≤ now
    → among j (due_keys interval now d) ≡ true
unfolding get due_keys
among-due_keys interval now j p [] e ne due = cc
among-due_keys interval now j p ((k, r) ∷ d) e ne due = elim (Bool-cases (key_eq k j)) [
  | inl same ↦
      let value : r ≡ p = some_inj (ground (arith, e, same)) in
      ground (arith, value, length_pos p.events ne)
  | inr other ↦ ground (arith, among-due_keys interval now j p d (ground arith) ne due)
]

module _ (sha256 : String → String) where
  flush_partition-Leaves :
      (j k : TopicPartitionKey) (now : Option ℕ) (clock : ℕ) (s : PartitionBatcher)
      → IsValid s
      → Leaves j (key_eq k j) s (flush_partition sha256 k now clock s)
  flush_partition-Leaves j k now clock s v = elim (Option-cases (get k s.pending)) [
    | inl e ↦ rw (flush_partition_absent sha256 k now clock s e) (ground (arith, key_eq_iff k j))
    | inr (p, e) ↦
        let (b, flushed, _, _, _) =
          flush_partition_found sha256 k now clock p s e (v.queues k p e) in
        rw flushed (get-del j k s.pending)
  ]

  pub flush_partitions-Leaves :
      (j : TopicPartitionKey) (ks : List TopicPartitionKey) (now : Option ℕ) (clock : ℕ)
      (s : PartitionBatcher)
      → IsValid s
      → Leaves j (among j ks) s (flush_partitions sha256 ks now clock s)
  unfolding flush_partitions
  flush_partitions-Leaves j [] now clock s v = refl
  flush_partitions-Leaves j (k ∷ ks) now clock s v =
      Leaves-then j (key_eq k j) (among j ks) s (flush_partition sha256 k now clock s)
        (flush_partitions sha256 ks now clock) (flush_partition-Serves sha256 k now clock s v)
        (flush_partition-Leaves j k now clock s v)
        (λ t w. flush_partitions-Leaves j ks now clock t w)

  -- After `flush_all` nothing waits.
  pub flush_all_empties :
      (now : Option ℕ) (clock : ℕ) (s : PartitionBatcher) (j : TopicPartitionKey)
      → IsValid s
      → queue j (flush_all sha256 now clock s).1 ≡ []
  unfolding flush_all
  flush_all_empties now clock s j v =
      ground
        (arith, flush_partitions-Leaves j (keys s.pending) now clock s v, among-keys j s.pending)

  -- After `flush_due` no queue is left that has waited for the flush interval.
  pub flush_due_empties :
      (now : Option ℕ) (clock : ℕ) (s : PartitionBatcher) (j : TopicPartitionKey)
      (p : PendingPartition)
      → IsValid s
      → get j s.pending ≡ some p
      → p.first_seen_at + s.flush_interval ≤ observed now clock
      → queue j (flush_due sha256 now clock s).1 ≡ []
  unfolding flush_due
  flush_due_empties now clock s j p v e due =
      let at = observed now clock in
      let ks = due_keys s.flush_interval at s.pending in
      let gone =
        among-sort_keys j ks
        ∙ among-due_keys s.flush_interval at j p s.pending e (v.queues j p e).nonempty due in
      ground (arith, flush_partitions-Leaves j (sort_keys ks) (some at) clock s v, gone)
