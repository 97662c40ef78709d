-- ===== src/Workqueue/Policy.antt =====
-- workqueue/dispatcher/dispatcher.go and options.go: what the dispatcher decides about a key from the
-- callback's error, and the delay before a failed key is tried again.
pub mod Backoff
use go_driftlessaf.Base.{
  to_int64, ℕ, zero, suc, ◌+◌, ◌-◌, ◌/◌, ◌%◌, String, Bool, true, false, ◌||◌, ◌&&◌, Option, none,
  some, List, [], ◌∷◌, ◌++◌, map, if◌then◌else◌, length, str_eq, ltb, ℤ, pos, pos_part, ltb_ℤ,
  leb_ℤ, min_ℤ, ◌+ℤ◌, ◌-ℤ◌,
}
use go_driftlessaf.Clock.{Instant, Duration, add_time, times_int64, second}
use go_driftlessaf.Workqueue.Options.{Options, no_options, Tuning}
use go_driftlessaf.Workqueue.Errors.{
  Err, wrapped, QueueKey, GrpcStatus, get_requeue_options, get_queue_keys,
  get_non_retriable_details, is_infrastructure_error,
}
use go_driftlessaf.Workqueue.Interface.{Backend, Reply, ok, err}

-- The loop of retryBackoff over the rounds that are left, below the given maximum.
backoff_loop : Duration → Duration → ℕ → Duration
backoff_loop most delay zero = delay
backoff_loop most delay (suc rounds) =
    let more = backoff_loop most (times_int64 2 delay) rounds in
    if leb_ℤ most delay then delay else more

unfoldable pub retry_backoff : Tuning → ℤ → Duration
unfolding backoff_loop
retry_backoff t attempts =
    min_ℤ (backoff_loop t.maximum_backoff_period t.backoff_period (pos_part (attempts -ℤ pos 1)))
      t.maximum_backoff_period

pub data ErrorAction : Type 0 where
  error_requeued error_dead_lettered error_dropped : ErrorAction

-- ErrorAction.String
pub action_string : ErrorAction → String
action_string error_requeued = "requeued"
action_string error_dead_lettered = "dead-lettered"
action_string error_dropped = "dropped"

pub record ErrorContext : Type 0 where
  pub key : String
  pub cause : Err
  pub attempts : ℤ
  pub action : ErrorAction
  pub non_retriable_reason : Option String
  pub infrastructure : Bool

-- What a pass is given: the package's variables, the retry budget, the WithBackoff hook and the
-- status package.
pub record Config : Type 0 where
  pub tuning : Tuning
  pub max_retry : ℤ
  pub backoff : Option (ℤ → Duration)
  pub grpc : GrpcStatus

-- What a step draws from outside: the callback's error, a random number and the clock.
pub record Input : Type 0 where
  pub reply : Option Err
  pub random : ℕ
  pub now : Instant

abbrev pub hooked : Option (ℤ → Duration) → ℤ → Duration
hooked none attempts = pos 0
hooked (some f) attempts = f attempts

-- `delay / 2` and `rand.N(jitter)`, the random number drawn below the jitter.
add_jitter : Duration → ℕ → Duration
add_jitter delay random =
    let jitter = pos_part delay / 2 in
    if ltb 0 jitter then to_int64 (pos_part delay + random % jitter) else delay

-- The delay of a retriable failure: the hook's, if it is positive, or the jittered default curve.
unfoldable pub retry_delay : Config → ℤ → ℕ → Duration
unfolding add_jitter
retry_delay c attempts random =
    let hook = hooked c.backoff attempts in
    if leb_ℤ hook (pos 0) then add_jitter (retry_backoff c.tuning attempts) random else hook

-- What the dispatcher does with a key once the callback has returned.
pub data Plan : Type 0 where
  delayed : Options → Plan
  queued_first : List QueueKey → Plan
  buried : Err → Plan
  dropped : Err → String → Plan
  retried : Err → Duration → Plan
  completed : Plan

abbrev pub clamp_floor : Tuning → Duration → Bool → Duration
clamp_floor t delay floor =
    if floor && ltb_ℤ t.maximum_requeue_floor delay then t.maximum_requeue_floor else delay

-- The failures: a dead letter, a drop, or a retry.
plan_failure : Config → ℤ → ℕ → Err → Plan
plan_failure c attempts random e =
    if ltb_ℤ (pos 0) c.max_retry && leb_ℤ c.max_retry attempts
    then buried e
    else elim (get_non_retriable_details c.grpc (some e)) [
      | some reason ↦ dropped e reason
      | none ↦ retried e (retry_delay c attempts random)
    ]

plan_rest : Config → ℤ → ℕ → Option Err → List QueueKey → Plan
plan_rest c attempts random e (k ∷ ks) = queued_first (k ∷ ks)
plan_rest c attempts random none [] = completed
plan_rest c attempts random (some e) [] = plan_failure c attempts random e

-- The ladder of tests on the callback's error, in the order of the source.
unfoldable pub plan : Config → ℤ → ℤ → ℕ → Option Err → Plan
unfolding plan_failure plan_rest
plan c priority attempts random e = elim (get_requeue_options e) [
  | some (delay, floor) ↦ delayed (record no_options {
    priority = priority;
    delay = clamp_floor c.tuning delay floor;
    not_before_floor = floor;
  })
  | none ↦ plan_rest c attempts random e (get_queue_keys e)
]
