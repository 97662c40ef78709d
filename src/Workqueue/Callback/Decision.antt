-- ===== src/Workqueue/Callback/Decision.antt =====
-- What the dispatcher does with the reply of a service, and with that of a server that drains.
use go_driftlessaf.Base.{
  ℕ, ◌≡◌, refl, ◌∙◌, Bool, false, none, some, List, [], ◌∷◌, arith, if◌then◌else◌, ltb_ℤ, ℤ, pos,
  pos_part, lookup, to_int64, ◌<ℤ◌, ◌≤ℤ◌,
}
use go_driftlessaf.Clock.{Instant, times_int64, second, add_time, add_duration}
use go_driftlessaf.Workqueue.Options.{Options, no_options, Tuning}
use go_driftlessaf.Workqueue.Errors.{QueueKey, queue_keys, get_queue_keys, errors_as}
use go_driftlessaf.Workqueue.Interface.{ok}
use go_driftlessaf.Workqueue.Policy.{
  Config, Plan, delayed, queued_first, completed, plan, clamp_floor,
}
use go_driftlessaf.Workqueue.Inmem.{Wq, QueueItem, InProgressKey, requeue_with_options}
use go_driftlessaf.Workqueue.Inmem.Requeue.{requeue_delay_resets_attempts}
use go_driftlessaf.Workqueue.Callback.{
  ProcessResponse, from_response, service_callback, drain_requeue_response, drain_requeue_delay,
  drain_requeue_jitter,
}

abbrev pub requeue_options : Config → ℤ → ℤ → Bool → Options
requeue_options c priority seconds floor = record no_options {
  priority = priority;
  delay = clamp_floor c.tuning (times_int64 (pos_part seconds) second) floor;
  not_before_floor = floor;
}

abbrev pub keys_plan : List QueueKey → Plan
keys_plan [] = completed
keys_plan (k ∷ ks) = queued_first (k ∷ ks)

-- A reply that asks for a requeue is carried out as one, at the key's priority, after the seconds
-- that it names, cut at the maximum if it is a floor; any other reply queues the keys that it
-- carries, if any, and completes the key. So a reply, unlike an error, never counts as a failure,
-- whatever the attempts and the retry budget.
pub service_callback-plan :
    (c : Config) (priority attempts : ℤ) (random : ℕ) (r : ProcessResponse)
    → plan c priority attempts random (service_callback (ok r)) ≡ (
        if ltb_ℤ (pos 0) r.requeue_after_seconds
        then delayed (requeue_options c priority r.requeue_after_seconds r.requeue_floor)
        else keys_plan r.queue_keys)
unfolding plan service_callback from_response errors_as queue_keys get_queue_keys
service_callback-plan c priority attempts random r = ground arith

seconds_range :
    (r : ℕ)
    → let n =
        (drain_requeue_response drain_requeue_delay drain_requeue_jitter r).requeue_after_seconds in
      (pos 15 ≤ℤ n) × (n <ℤ pos 45)
unfolding drain_requeue_response add_duration to_int64
seconds_range r = ground arith

delay_positive : (n : ℤ) → pos 0 <ℤ n → n <ℤ pos 45 → pos 0 <ℤ times_int64 (pos_part n) second
unfolding times_int64 to_int64
delay_positive n low high = ground arith

requeue_taken :
    (n : ℤ) (floor : Bool) (a : Bool → Plan) (b : Plan)
    → pos 0 <ℤ n
    → floor ≡ false
    → (if ltb_ℤ (pos 0) n then a floor else b) ≡ a false
requeue_taken n floor a b positive no_floor = rw no_floor (ground arith)

no_floor :
    (r : ℕ)
    → (drain_requeue_response drain_requeue_delay drain_requeue_jitter r).requeue_floor ≡ false
unfolding drain_requeue_response
no_floor r = refl

-- Work that an orderly shutdown interrupts does not use up its retry budget: the dispatcher takes the
-- response of the draining server as a requeue, and the key goes back to the queue with no attempts
-- behind it, after 15 to 45 seconds, if it was not enqueued again in the meantime.
pub drain_spares_budget :
    (c : Config) (priority attempts : ℤ) (random r : ℕ) (t : Tuning) (o : InProgressKey)
    (now later : Instant) (w : Wq)
    → lookup o.key w.queue ≡ none
    → let response = drain_requeue_response drain_requeue_delay drain_requeue_jitter r in
      (opts : Options) × (plan c priority attempts random (service_callback (ok response))
        ≡ delayed opts)
      × ((item : QueueItem) × (lookup o.key (requeue_with_options t o opts now later w).1.queue
            ≡ some item)
          × (item.attempts ≡ 0)
          × (item.options.not_before
              ≡ add_time now (times_int64 (pos_part response.requeue_after_seconds) second)))
      × (pos 15 ≤ℤ response.requeue_after_seconds)
      × (response.requeue_after_seconds <ℤ pos 45)
drain_spares_budget c priority attempts random r t o now later w no_twin =
    let response = drain_requeue_response drain_requeue_delay drain_requeue_jitter r in
    let (low, high) = seconds_range r in
    let opts = requeue_options c priority response.requeue_after_seconds false in
    let positive : pos 0 <ℤ opts.delay =
      delay_positive response.requeue_after_seconds (omega (arith, low)) high in
    let (item, stands, fresh, after, floor) =
      requeue_delay_resets_attempts t o opts now later w (omega arith) positive no_twin in
    (
      opts,
      service_callback-plan c priority attempts random response
          ∙ requeue_taken response.requeue_after_seconds response.requeue_floor
              (λ f. delayed (requeue_options c priority response.requeue_after_seconds f))
              (keys_plan response.queue_keys) (omega (arith, low)) (no_floor r),
      (item, stands, fresh, after),
      low,
      high,
    )
