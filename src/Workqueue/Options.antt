-- ===== src/Workqueue/Options.antt =====
-- workqueue/interface.go: the options of an enqueue, the tunable periods and the state of a key.
use go_driftlessaf.Base.{String, Bool, false, ℤ, pos}
use go_driftlessaf.Clock.{Instant, Duration, hour, zero_time}

-- The package's variables, which binaries and tests may set.
pub record Tuning : Type 0 where
  pub backoff_period : Duration
  pub maximum_backoff_period : Duration
  pub maximum_requeue_floor : Duration

abbrev pub default_tuning : Tuning
default_tuning = record {
  backoff_period = pos 30000000000;
  maximum_backoff_period = pos 600000000000;
  maximum_requeue_floor = hour;
}

pub record Options : Type 0 where
  pub priority : ℤ
  pub not_before : Instant
  pub delay : Duration
  pub backoff_delay : Duration
  pub not_before_floor : Bool

-- `Options{}`
abbrev pub no_options : Options
no_options = record {
  priority = pos 0;
  not_before = zero_time;
  delay = pos 0;
  backoff_delay = pos 0;
  not_before_floor = false;
}

pub data Status : Type 0 where
  queued in_progress dead_letter : Status

-- The message KeyState of workqueue.proto; the times are Unix seconds.
pub record KeyState : Type 0 where
  pub key : String
  pub status : Status
  pub priority : ℤ
  pub attempts : ℤ
  pub queued_time : ℤ
  pub not_before_time : ℤ
