-- ===== src/Workqueue/Drain.antt =====
-- DrainInterceptor of workqueue/drain.go, in front of the Process method of a reconciler's server. The
-- race of the handler, the drain and the backstop is an argument: how it ended, with the cause of the
-- canceled context at that time.
use go_driftlessaf.Base.{
  ℕ, ◌≡◌, refl, ◌∙◌, ap, Bool, [], true, false, ◌&&◌, if◌then◌else◌, none, some, ℤ, pos, pos_part,
  lookup, ◌≤ℤ◌, ◌<ℤ◌,
}
use go_driftlessaf.Clock.{Instant, times_int64, second, add_time}
use go_driftlessaf.Workqueue.Options.{Options, Tuning}
use go_driftlessaf.Workqueue.Errors.{Err, status_error, internal}
use go_driftlessaf.Workqueue.Interface.{Reply, ok, err}
use go_driftlessaf.Workqueue.Policy.{Config, plan, delayed}
use go_driftlessaf.Workqueue.Inmem.{Wq, QueueItem, InProgressKey, requeue_with_options}
use go_driftlessaf.Workqueue.Callback.{
  ProcessResponse, service_callback, drain_requeue_response, drain_requeue_delay,
  drain_requeue_jitter,
}
use go_driftlessaf.Workqueue.Callback.Decision.{drain_spares_budget}

-- How the handler ends: with a reply, or with a panic.
pub data Ending : Type 0 where
  returned : Reply ProcessResponse → Ending
  panicked : Ending

-- The error that a panic is translated to.
abbrev pub handler_panic : Err
handler_panic = status_error (record { code = internal; message = "handler panic"; details = [] })

abbrev pub result_of : Ending → Reply ProcessResponse
result_of (returned r) = r
result_of panicked = err handler_panic

-- What ends the race: the handler, before the drain or after it, with whether the cause of the
-- canceled context is errDraining by then; or the backstop after the drain.
pub data Race : Type 0 where
  handler_first after_drain : Ending → Bool → Race
  backstop : Race

-- A call: of another method, with the handler's reply; on arrival at a server that drains already; or
-- one that starts the handler.
pub data Arrival : Type 0 where
  other_method : Reply ProcessResponse → Arrival
  drained : Arrival
  started : Race → Arrival

-- The function `finish`.
unfoldable pub finish : ProcessResponse → Reply ProcessResponse → Bool → Reply ProcessResponse
finish requeue (ok r) draining = ok r
finish requeue (err e) draining = if draining then ok requeue else err e

race : ProcessResponse → Race → Reply ProcessResponse
race requeue (handler_first r draining) = finish requeue (result_of r) draining
race requeue (after_drain r draining) = finish requeue (result_of r) draining
race requeue backstop = ok requeue

-- DrainInterceptor, for the random number that a requeue response draws.
unfoldable pub drain_interceptor : ℕ → Arrival → Reply ProcessResponse
unfolding race
drain_interceptor r (other_method reply) = reply
drain_interceptor r drained = ok (drain_requeue_response drain_requeue_delay drain_requeue_jitter r)
drain_interceptor r (started outcome) =
    race (drain_requeue_response drain_requeue_delay drain_requeue_jitter r) outcome

abbrev fails : Reply ProcessResponse → Bool
fails (ok r) = false
fails (err e) = true

-- Whether the drain interrupted the work of a call: it came to a server that drains, outlived the
-- backstop, or failed after the drain had canceled its context.
unfoldable pub is_interrupted : Arrival → Bool
is_interrupted (other_method reply) = false
is_interrupted drained = true
is_interrupted (started (handler_first r draining)) = draining && fails (result_of r)
is_interrupted (started (after_drain r draining)) = draining && fails (result_of r)
is_interrupted (started backstop) = true

-- What the handler itself answers, in a call that it ends.
unfoldable pub own_reply : Arrival → Reply ProcessResponse
own_reply (other_method reply) = reply
own_reply drained = err handler_panic
own_reply (started (handler_first r draining)) = result_of r
own_reply (started (after_drain r draining)) = result_of r
own_reply (started backstop) = err handler_panic

finish_lem :
    (requeue : ProcessResponse) (r : Reply ProcessResponse) (draining : Bool)
    → finish requeue r draining ≡ (if draining && fails r then ok requeue else r)
unfolding finish
finish_lem requeue (ok r) true = refl
finish_lem requeue (ok r) false = refl
finish_lem requeue (err e) true = refl
finish_lem requeue (err e) false = refl

-- The interceptor answers with the requeue response in an interrupted call, and otherwise with what
-- the handler answers: work that completed keeps its real outcome.
pub drain_interceptor_lem :
    (r : ℕ) (a : Arrival)
    → drain_interceptor r a ≡ (
        if is_interrupted a
        then ok (drain_requeue_response drain_requeue_delay drain_requeue_jitter r)
        else own_reply a)
unfolding drain_interceptor race is_interrupted own_reply
drain_interceptor_lem r (other_method reply) = refl
drain_interceptor_lem r drained = refl
drain_interceptor_lem r (started (handler_first e draining)) =
    finish_lem (drain_requeue_response drain_requeue_delay drain_requeue_jitter r) (result_of e)
      draining
drain_interceptor_lem r (started (after_drain e draining)) =
    finish_lem (drain_requeue_response drain_requeue_delay drain_requeue_jitter r) (result_of e)
      draining
drain_interceptor_lem r (started backstop) = refl

-- Work that an orderly shutdown interrupts does not use up its retry budget: whatever way the drain
-- interrupted the call, the dispatcher takes the server's reply as a requeue, and the key goes back to
-- the queue with no attempts behind it, after 15 to 45 seconds, if it was not enqueued again in the
-- meantime.
pub interrupted_spares_budget :
    (c : Config) (priority attempts : ℤ) (random r : ℕ) (t : Tuning) (o : InProgressKey)
    (now later : Instant) (w : Wq) (a : Arrival)
    → lookup o.key w.queue ≡ none
    → is_interrupted a ≡ true
    → let response = drain_requeue_response drain_requeue_delay drain_requeue_jitter r in
      (opts : Options) × (plan c priority attempts random (service_callback (drain_interceptor r a))
        ≡ delayed opts)
      × ((item : QueueItem) × (lookup o.key (requeue_with_options t o opts now later w).1.queue
            ≡ some item)
          × (item.attempts ≡ 0)
          × (item.options.not_before
              ≡ add_time now (times_int64 (pos_part response.requeue_after_seconds) second)))
      × (pos 15 ≤ℤ response.requeue_after_seconds)
      × (response.requeue_after_seconds <ℤ pos 45)
interrupted_spares_budget c priority attempts random r t o now later w a no_twin interrupted =
    let response = drain_requeue_response drain_requeue_delay drain_requeue_jitter r in
    let answer : drain_interceptor r a ≡ ok response =
      drain_interceptor_lem r a ∙ ap (λ b. if b then ok response else own_reply a) interrupted in
    let (opts, planned, queued, low, high) =
      drain_spares_budget c priority attempts random r t o now later w no_twin in
    (
      opts,
      ap (λ reply. plan c priority attempts random (service_callback reply)) answer ∙ planned,
      queued,
      low,
      high,
    )
