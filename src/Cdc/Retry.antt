-- ===== src/Cdc/Retry.antt =====
-- src/ingestion/cdc_consumer/retry.py: bounded retries with a growing delay. A delay is a number of
-- ticks; the sleeper is an action on the state.
pub mod Laws
use Prim.Native.Nat.{min}
use fintech_payments_data_pl.Prelude.{
  ℕ, zero, suc, ◌+◌, ◌*◌, Bool, true, false, not, Result, ok, err, Exec, ◌==◌, ltb, if◌then◌else◌,
}
use fintech_payments_data_pl.Cdc.Manifest.{ManifestError}

-- The exceptions that the consumer tells apart: the first two are `ImmutableCollisionError` and
-- `StorageBackendError`, the next four are the classes that `is_retryable` names.
pub data Raised : Type 0 where
  immutable_collision storage_backend : Raised
  sqlite_operational timeout connection os_error : Raised
  manifest_raised : ManifestError → Raised
  runtime_error value_error retry_unreachable : Raised
  retry_exhausted : ℕ → Raised

pub record RetryPolicy : Type 0 where
  pub max_attempts : ℕ
  pub initial_backoff : ℕ
  pub maximum_backoff : ℕ

pub data PolicyError : Type 0 where
  no_attempts no_initial_backoff maximum_below_initial : PolicyError

-- `__post_init__`
unfoldable pub new_policy : ℕ → ℕ → ℕ → Result PolicyError RetryPolicy
new_policy max_attempts initial_backoff maximum_backoff =
    if ltb max_attempts 1
    then err no_attempts
    else if initial_backoff == 0
    then err no_initial_backoff
    else if ltb maximum_backoff initial_backoff
    then err maximum_below_initial
    else ok (record {
      max_attempts = max_attempts;
      initial_backoff = initial_backoff;
      maximum_backoff = maximum_backoff;
    })

unfoldable pub is_retryable : Raised → Bool
is_retryable sqlite_operational = true
is_retryable timeout = true
is_retryable connection = true
is_retryable os_error = true
is_retryable _ = false

module _ {S A : Type 0} (sleeper : ℕ → S → S) (policy : RetryPolicy)
    (operation : Exec Raised S A) where
  -- What follows an attempt; `again` goes on with the next one.
  after_attempt : (S → Result Raised A × S) → ℕ → Result Raised A × S → Result Raised A × S
  after_attempt again attempt (ok a, s) = (ok a, s)
  after_attempt again attempt (err e, s) =
      if not (is_retryable e)
      then (err e, s)
      else if attempt == policy.max_attempts
      then (err (retry_exhausted attempt), s)
      else again s

  -- The `for` over the attempts: `left` of them are left, and `attempt` is the next one's number.
  retry_from : ℕ → ℕ → ℕ → Exec Raised S A
  retry_from zero attempt delay s = (err retry_unreachable, s)
  retry_from (suc left) attempt delay s =
      after_attempt
        (λ s'.
          retry_from left (attempt + 1) (min (delay * 2) policy.maximum_backoff) (sleeper delay s'))
        attempt (operation s)

  unfoldable pub retry_call : Exec Raised S A
  unfolding retry_from after_attempt is_retryable
  retry_call s = retry_from policy.max_attempts 1 policy.initial_backoff s
