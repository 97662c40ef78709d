-- ===== src/Workqueue/Interface.antt =====
-- workqueue/interface.go: what the dispatcher asks of a queue. A call on the queue takes its state
-- and gives the state after it; the error of a call that only fails or succeeds is an `Option Err`.
use go_driftlessaf.Base.{String, Bool, List, Option, ℤ}
use go_driftlessaf.Workqueue.Options.{Options}
use go_driftlessaf.Workqueue.Errors.{Err}

pub data Reply (A : Type 0) : Type 0 where
  ok : A → Reply A
  err : Err → Reply A

-- Interface, with the keys that it hands out: ObservedInProgressKey, QueuedKey and
-- OwnedInProgressKey.
pub record Backend : Type 1 where
  pub State : Type 0
  pub Observed : Type 0
  pub Waiting : Type 0
  pub Owned : Type 0
  pub enumerate : State → Reply (List Observed × List Waiting) × State
  pub enqueue : String → Options → State → Option Err × State
  pub observed_name : Observed → String
  pub is_orphaned : Observed → State → Bool
  pub requeue_observed : Observed → State → Option Err × State
  pub waiting_name : Waiting → String
  pub start : Waiting → State → Reply Owned × State
  pub owned_name : Owned → String
  pub owned_priority : Owned → ℤ
  pub get_attempts : Owned → ℤ
  pub requeue : Owned → State → Option Err × State
  pub requeue_with_options : Owned → Options → State → Option Err × State
  pub complete : Owned → State → Option Err × State
  pub deadletter : Owned → State → Option Err × State
