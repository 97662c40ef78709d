-- ===== src/Workqueue/Callback.antt =====
-- ServiceCallback of workqueue/dispatcher/dispatcher.go: the reply of a reconciler's service as the
-- error that the dispatcher reads. The response that a server gives while it drains
-- (workqueue/drain.go) is one of them.
pub mod Decision
use go_driftlessaf.Base.{
  ℕ, String, Bool, false, Option, none, some, List, [], ◌∷◌, if◌then◌else◌, ltb_ℤ, ℤ, pos, pos_part,
  ◌%◌, ◌+ℤ◌,
}
use go_driftlessaf.Clock.{Duration, times_int64, second, second_ns, quotient, add_duration}
use go_driftlessaf.Workqueue.Errors.{Err, QueueKey, requeue_after, requeue_not_before, queue_keys}
use go_driftlessaf.Workqueue.Interface.{Reply, ok, err}

-- The message ProcessResponse; its keys have the fields of a QueueKey.
pub record ProcessResponse : Type 0 where
  pub requeue_after_seconds : ℤ
  pub requeue_floor : Bool
  pub queue_keys : List QueueKey

from_response : ProcessResponse → Option Err
from_response r =
    let delay = times_int64 (pos_part r.requeue_after_seconds) second in
    if ltb_ℤ (pos 0) r.requeue_after_seconds
    then (if r.requeue_floor then requeue_not_before delay else requeue_after delay)
    else queue_keys r.queue_keys

-- ServiceCallback, from what the call of the service returned.
unfoldable pub service_callback : Reply ProcessResponse → Option Err
unfolding from_response
service_callback (err e) = some e
service_callback (ok r) = from_response r

abbrev pub drain_requeue_delay : Duration
drain_requeue_delay = pos 15000000000

abbrev pub drain_requeue_jitter : Duration
drain_requeue_jitter = pos 30000000000

-- drainRequeueResponse, for the package's delay and jitter; `r` is the random number, which the
-- generator draws below the jitter.
unfoldable pub drain_requeue_response : Duration → Duration → ℕ → ProcessResponse
drain_requeue_response delay jitter r =
    let total =
      if ltb_ℤ (pos 0) jitter then add_duration delay (pos (r % pos_part jitter)) else delay in
    record {
      requeue_after_seconds = quotient total second_ns;
      requeue_floor = false;
      queue_keys = [];
    }
