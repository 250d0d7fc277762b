-- ===== src/Cdc/Retry/Laws.antt =====
-- `retry_call` on any operation: how often it calls, how long it sleeps, and what it returns.
use Prim.Native.Nat.{min}
use fintech_payments_data_pl.Prelude.{
  ℕ, zero, suc, ◌+◌, ◌*◌, ◌≤◌, ◌≡◌, ◌≢◌, refl, subst, true, not, Result, ok, err, Exec, ◌==◌,
  Bool-cases, inl, inr, arith,
}
use fintech_payments_data_pl.Cdc.Retry.{
  Raised, retry_exhausted, RetryPolicy, new_policy, is_retryable, retry_call, retry_from,
  after_attempt,
}

-- A policy that the constructor accepts.
pub record IsPolicy (p : RetryPolicy) : Type 0 where
  pub attempts : 1 ≤ p.max_attempts
  pub positive : 1 ≤ p.initial_backoff
  pub ordered : p.initial_backoff ≤ p.maximum_backoff

pub new_policy-IsPolicy : (n i m : ℕ) (p : RetryPolicy) → new_policy n i m ≡ ok p → IsPolicy p
unfolding new_policy
new_policy-IsPolicy n i m p h = ground arith

module _ {S A : Type 0} (sleeper : ℕ → S → S) (policy : RetryPolicy)
    (operation : Exec Raised S A) where
  after-inv :
      (P : S → Type 0) (again : S → Result Raised A × S) (attempt : ℕ) (r : Result Raised A × S)
      → P r.1
      → ((s : S) → P s → P (again s).1)
      → P (after_attempt sleeper policy operation again attempt r).1
  unfolding after_attempt
  after-inv P again attempt (ok a, s) h k = h
  after-inv P again attempt (err e, s) h k = elim (Bool-cases (not (is_retryable e))) [
    | inl final ↦ rw final h
    | inr transient ↦ rw transient (elim (Bool-cases (attempt == policy.max_attempts)) [
      | inl last ↦ rw last h
      | inr more ↦ rw more (k s h)
    ])
  ]

  -- What the operation and every sleep of a permitted length keep, the whole call keeps.
  retry_from-inv :
      (P : S → Type 0) (left attempt delay : ℕ) (s : S)
      → ((t : S) → P t → P (operation t).1)
      → ((d : ℕ) (t : S)
          → policy.initial_backoff ≤ d
          → d ≤ policy.maximum_backoff
          → P t
          → P (sleeper d t))
      → policy.initial_backoff ≤ delay
      → delay ≤ policy.maximum_backoff
      → P s
      → P (retry_from sleeper policy operation left attempt delay s).1
  unfolding retry_from
  retry_from-inv P zero attempt delay s op sleeps low high h = h
  retry_from-inv P (suc left) attempt delay s op sleeps low high h =
      after-inv P _ attempt (operation s) (op s h) (λ t ht.
        retry_from-inv P left (attempt + 1) (min (delay * 2) policy.maximum_backoff)
          (sleeper delay t) op sleeps (omega arith) (omega arith) (sleeps delay t low high ht))

  -- What the operation keeps, and what sleeping keeps for every delay between the initial and the
  -- maximal one, the whole call keeps: no other delay is ever slept.
  pub retry_call-inv :
      (P : S → Type 0) (s : S)
      → IsPolicy policy
      → ((t : S) → P t → P (operation t).1)
      → ((d : ℕ) (t : S)
          → policy.initial_backoff ≤ d
          → d ≤ policy.maximum_backoff
          → P t
          → P (sleeper d t))
      → P s
      → P (retry_call sleeper policy operation s).1
  unfolding retry_call
  retry_call-inv P s p op sleeps h =
      retry_from-inv P policy.max_attempts 1 policy.initial_backoff s op sleeps (omega arith)
        p.ordered h

  after-ok :
      (Q : Type 0) (again : S → Result Raised A × S) (attempt : ℕ) (r : Result Raised A × S) (a : A)
      (t : S)
      → (r ≡ (ok a, t) → Q)
      → ((s : S) → r.1 ≡ s → again s ≡ (ok a, t) → Q)
      → after_attempt sleeper policy operation again attempt r ≡ (ok a, t)
      → Q
  unfolding after_attempt
  after-ok Q again attempt (ok b, s) a t now later h = now h
  after-ok Q again attempt (err e, s) a t now later h = elim (Bool-cases (not (is_retryable e))) [
    | inl final ↦ absurd (ground arith)
    | inr transient ↦ elim (Bool-cases (attempt == policy.max_attempts)) [
      | inl last ↦ absurd (ground arith)
      | inr more ↦ later s refl (ground arith)
    ]
  ]

  retry_from-ok :
      (P : S → Type 0) (left attempt delay : ℕ) (s : S) (a : A) (s' : S)
      → ((t : S) → P t → P (operation t).1)
      → ((d : ℕ) (t : S) → P t → P (sleeper d t))
      → P s
      → retry_from sleeper policy operation left attempt delay s ≡ (ok a, s')
      → (t : S) × P t × (operation t ≡ (ok a, s'))
  unfolding retry_from
  retry_from-ok P zero attempt delay s a s' op sleeps h e = absurd (ground arith)
  retry_from-ok P (suc left) attempt delay s a s' op sleeps h e =
      after-ok ((t : S) × P t × (operation t ≡ (ok a, s'))) _ attempt (operation s) a s'
        (λ now. (s, h, now))
        (λ u at later.
          retry_from-ok P left (attempt + 1) (min (delay * 2) policy.maximum_backoff)
            (sleeper delay u) a s' op sleeps (sleeps delay u (subst P at (op s h))) later)
        e

  -- A value that the call returns is what the operation returned last, from a state that the
  -- attempts before it Reached.
  pub retry_call-ok :
      (P : S → Type 0) (s : S) (a : A) (s' : S)
      → ((t : S) → P t → P (operation t).1)
      → ((d : ℕ) (t : S) → P t → P (sleeper d t))
      → P s
      → retry_call sleeper policy operation s ≡ (ok a, s')
      → (t : S) × P t × (operation t ≡ (ok a, s'))
  unfolding retry_call
  retry_call-ok P s a s' = retry_from-ok P policy.max_attempts 1 policy.initial_backoff s a s'

  after-cost :
      (cost : S → ℕ) (m : ℕ) (again : S → Result Raised A × S) (attempt : ℕ)
      (r : Result Raised A × S)
      → cost r.1 ≤ m
      → cost (again r.1).1 ≤ m
      → cost (after_attempt sleeper policy operation again attempt r).1 ≤ m
  unfolding after_attempt
  after-cost cost m again attempt (ok a, s) h k = h
  after-cost cost m again attempt (err e, s) h k = ground arith

  retry_from-cost :
      (cost : S → ℕ) (left attempt delay : ℕ) (s : S)
      → ((t : S) → cost (operation t).1 ≤ cost t + 1)
      → ((d : ℕ) (t : S) → cost (sleeper d t) ≤ cost t)
      → cost (retry_from sleeper policy operation left attempt delay s).1 ≤ cost s + left
  unfolding retry_from
  retry_from-cost cost zero attempt delay s op sleeps = omega arith
  retry_from-cost cost (suc left) attempt delay s op sleeps =
      after-cost cost (cost s + suc left) _ attempt (operation s) (omega (arith, op s)) (
        omega (
          arith,
          op s,
          sleeps delay (operation s).1,
          retry_from-cost cost left (attempt + 1) (min (delay * 2) policy.maximum_backoff)
              (sleeper delay (operation s).1) op sleeps,
        ))

  -- Termination within the bound: the operation is called at most `max_attempts` times.
  pub retry_call-cost :
      (cost : S → ℕ) (s : S)
      → ((t : S) → cost (operation t).1 ≤ cost t + 1)
      → ((d : ℕ) (t : S) → cost (sleeper d t) ≤ cost t)
      → cost (retry_call sleeper policy operation s).1 ≤ cost s + policy.max_attempts
  unfolding retry_call
  retry_call-cost cost s = retry_from-cost cost policy.max_attempts 1 policy.initial_backoff s

  after-exhausts :
      (again : S → Result Raised A × S) (attempt : ℕ) (r : Result Raised A × S) (e : Raised)
      → r.0 ≡ err e
      → is_retryable e ≡ true
      → (attempt ≢ policy.max_attempts → (again r.1).0 ≡ err (retry_exhausted policy.max_attempts))
      → (after_attempt sleeper policy operation again attempt r).0
        ≡ err (retry_exhausted policy.max_attempts)
  unfolding after_attempt
  after-exhausts again attempt (ok a, s) e h k more = absurd (ground arith)
  after-exhausts again attempt (err x, s) e h k more = ground arith

  retry_from-exhausts :
      (left attempt delay : ℕ) (s : S)
      → ((t : S) → (e : Raised) × ((operation t).0 ≡ err e) × (is_retryable e ≡ true))
      → left + attempt ≡ policy.max_attempts + 1
      → 1 ≤ left
      → (retry_from sleeper policy operation left attempt delay s).0
        ≡ err (retry_exhausted policy.max_attempts)
  unfolding retry_from
  retry_from-exhausts zero attempt delay s fails n pos = absurd (omega arith)
  retry_from-exhausts (suc left) attempt delay s fails n pos =
      let (e, raised, transient) = fails s in
      after-exhausts _ attempt (operation s) e raised transient (λ ne.
        retry_from-exhausts left (attempt + 1) (min (delay * 2) policy.maximum_backoff)
          (sleeper delay (operation s).1) fails (omega arith) (omega arith))

  -- An operation that keeps raising transient errors ends the call with `RetryExhaustedError` after
  -- the last permitted attempt.
  pub retry_call-exhausts :
      (s : S)
      → IsPolicy policy
      → ((t : S) → (e : Raised) × ((operation t).0 ≡ err e) × (is_retryable e ≡ true))
      → (retry_call sleeper policy operation s).0 ≡ err (retry_exhausted policy.max_attempts)
  unfolding retry_call
  retry_call-exhausts s p fails =
      retry_from-exhausts policy.max_attempts 1 policy.initial_backoff s fails (omega arith)
        p.attempts
