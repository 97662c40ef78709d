-- ===== src/Agents/Retry.antt =====
-- agents/executor/retry/retry.go: calls of a model API that are retried with exponential backoff. The
-- function that is called, the cancellation of the context and the random numbers are arguments,
-- one value for each attempt.
pub mod Outcome
pub mod Requeue
use go_driftlessaf.Base.{
  ℕ, zero, suc, ◌+◌, ◌%◌, ◌^◌, String, Bool, true, false, Option, none, some, List, [], ◌∷◌,
  if◌then◌else◌, ℤ, pos, pos_part, ltb_ℤ, min_ℤ, ◌+ℤ◌,
}
use go_driftlessaf.Clock.{Duration, times_int64, add_duration}
use go_driftlessaf.Workqueue.Errors.{
  Err, other, wrapped, Causes, end, cause, requeue_after, mark_infrastructure,
}

abbrev pub llm_backoff_delay : Duration
llm_backoff_delay = pos 300000000000

-- RequeueIfRetryable.
unfoldable pub requeue_if_retryable : (Err → Bool) → Err → Option Err
requeue_if_retryable is_retryable e =
    if is_retryable e
    then mark_infrastructure (requeue_after llm_backoff_delay) (cause e end)
    else none

pub record RetryConfig : Type 0 where
  pub max_retries : ℤ
  pub base_backoff : Duration
  pub max_backoff : Duration
  pub max_jitter : Duration

abbrev pub default_retry_config : RetryConfig
default_retry_config = record {
  max_retries = pos 5;
  base_backoff = pos 1000000000;
  max_backoff = pos 60000000000;
  max_jitter = pos 500000000;
}

-- Validate; `none` is the nil error.
unfoldable pub validate : RetryConfig → Option String
validate c =
    if ltb_ℤ c.max_retries (pos 0)
    then some "max retries cannot be negative"
    else if ltb_ℤ c.base_backoff (pos 0)
    then some "base backoff cannot be negative"
    else if ltb_ℤ c.max_backoff (pos 0)
    then some "max backoff cannot be negative"
    else if ltb_ℤ c.max_jitter (pos 0)
    then some "max jitter cannot be negative"
    else none

-- The backoff after an attempt: `min(BaseBackoff << attempt, MaxBackoff)`.
unfoldable pub backoff : RetryConfig → ℕ → Duration
backoff c attempt = min_ℤ (times_int64 (2 ^ attempt) c.base_backoff) c.max_backoff

-- The jitter; `none` is a failure of the random source, which means no jitter.
unfoldable pub jitter : RetryConfig → Option ℕ → Duration
jitter c none = pos 0
jitter c (some r) = if ltb_ℤ (pos 0) c.max_jitter then pos (r % pos_part c.max_jitter) else pos 0

-- What a run returns, and what it did on the way: how often it called the function, the errors that
-- it passed to OnAttemptError and the times that it waited.
pub record Run {ℓ} (T : Type ℓ) : Type ℓ where
  pub value : T
  pub error : Option Err
  pub calls : ℕ
  pub reported : List Err
  pub waits : List Duration

module _ {ℓ} {T : Type ℓ} (c : RetryConfig) (is_retryable : Err → Bool) (fn : ℕ → T × Option Err)
    (cancelled : ℕ → Option Err) (random : ℕ → Option ℕ) where
  stop : T → Option Err → Run T
  stop v e = record { value = v; error = e; calls = 1; reported = []; waits = [] }

  exhausted : Err → Option Err
  exhausted e = some (wrapped "failed after retries" e)

  -- A wait, which the timer ends, and then the rest of the run; or the context ends it.
  wait : T → Err → Duration → Option Err → Run T → Run T
  wait v e d none r = record r {
    calls = suc r.calls;
    reported = e ∷ r.reported;
    waits = d ∷ r.waits;
  }
  wait v e d (some stopped) r = record {
    value = v;
    error = some stopped;
    calls = 1;
    reported = e ∷ [];
    waits = d ∷ [];
  }

  last_attempt : T × Option Err → Run T
  unfolding stop exhausted
  last_attempt (v, none) = stop v none
  last_attempt (v, some e) = stop v (if is_retryable e then exhausted e else some e)

  retried_attempt : ℕ → T × Option Err → Run T → Run T
  unfolding stop wait
  retried_attempt i (v, none) rest = stop v none
  retried_attempt i (v, some e) rest =
      if is_retryable e
      then wait v e (add_duration (backoff c i) (jitter c (random i))) (cancelled i) rest
      else stop v (some e)

  -- The loop from attempt i on, with so many retries left.
  unfoldable pub attempts_from : ℕ → ℕ → Run T
  unfolding last_attempt retried_attempt
  attempts_from i zero = last_attempt (fn i)
  attempts_from i (suc left) = retried_attempt i (fn i) (attempts_from (suc i) left)

  -- RetryWithBackoff; `zero_value` is the value of the variable `result` before any call.
  unfoldable pub retry_with_backoff : T → Run T
  unfolding attempts_from
  retry_with_backoff zero_value =
      if ltb_ℤ c.max_retries (pos 0)
      then record {
        value = zero_value;
        error = some (wrapped "failed after retries" (other 0));
        calls = 0;
        reported = [];
        waits = [];
      }
      else attempts_from 0 (pos_part c.max_retries)
