-- ===== src/Workqueue/Inmem/Requeue.antt =====
-- RequeueWithOptions of workqueue/inmem/inmem.go: what stands in the queue for the key afterwards.
use go_driftlessaf.Base.{
  ap, ◌∙◌, ◌≡◌, String, false, Option, none, some, arith, if◌then◌else◌, str_eq, lookup,
  lookup-remove, eq_refl, pos, eqb_ℤ, ◌<ℤ◌, ◌≤ℤ◌,
}
use go_driftlessaf.Clock.{Instant, add_time}
use go_driftlessaf.Workqueue.Options.{Options, Tuning}
use go_driftlessaf.Workqueue.Inmem.Entries.{lookup-upsert}
use go_driftlessaf.Workqueue.Inmem.{
  Wq, QueueItem, InProgressKey, requeue_with_options, requeue_plan, admit,
}

module _ (t : Tuning) (o : InProgressKey) (given : Options) (now later : Instant) (w : Wq) where
  after : Wq
  after = (requeue_with_options t o given now later w).1

  settled : (lookup o.key after.wip ≡ none)
  unfolding after requeue_with_options
  settled = rw (lookup-remove o.key o.key w.wip, eq_refl o.key)

  entry :
      lookup o.key after.queue
      ≡ some (
          admit
            (lookup o.key w.queue)
            (requeue_plan t o given now).0
            (requeue_plan t o given now).1
            later)
  unfolding after requeue_with_options
  entry = rw (
    lookup-upsert o.key o.key (requeue_plan t o given now).0 (requeue_plan t o given now).1 later
        w.queue,
    eq_refl o.key,
  )

  entry_at :
      (was : Option QueueItem)
      → lookup o.key w.queue ≡ was
      → lookup o.key after.queue
        ≡ some (admit was (requeue_plan t o given now).0 (requeue_plan t o given now).1 later)
  entry_at was e =
      entry
      ∙ ap (λ i. some (admit i (requeue_plan t o given now).0 (requeue_plan t o given now).1 later))
          e

  plan_priority :
      (requeue_plan t o given now).0.priority
      ≡ (if eqb_ℤ given.priority (pos 0) then o.options.priority else given.priority)
  unfolding requeue_plan
  plan_priority = ground arith

  plan_backoff :
      pos 0 <ℤ given.backoff_delay
      → ((requeue_plan t o given now).1 ≡ o.attempts)
        × ((requeue_plan t o given now).0.not_before ≡ add_time now given.backoff_delay)
  unfolding requeue_plan
  plan_backoff positive = ground arith

  plan_delay :
      given.backoff_delay ≤ℤ pos 0
      → pos 0 <ℤ given.delay
      → ((requeue_plan t o given now).1 ≡ 0)
        × ((requeue_plan t o given now).0.not_before ≡ add_time now given.delay)
  unfolding requeue_plan
  plan_delay no_backoff positive = ground arith

  plan_floor : (requeue_plan t o given now).0.not_before_floor ≡ given.not_before_floor
  unfolding requeue_plan
  plan_floor = ground arith

  pub requeue_settles : lookup o.key (requeue_with_options t o given now later w).1.wip ≡ none
  unfolding after
  requeue_settles = settled

  -- A requeue ends the attempt on its own key, and leaves every other key as it was.
  pub requeue_frame :
      (j : String)
      → str_eq o.key j ≡ false
      → let w' = (requeue_with_options t o given now later w).1 in
        (lookup o.key w'.wip ≡ none)
        × (lookup j w'.queue ≡ lookup j w.queue)
        × (lookup j w'.wip ≡ lookup j w.wip)
  unfolding requeue_with_options after
  requeue_frame j other = (
    settled,
    rw (
      lookup-upsert o.key j (requeue_plan t o given now).0 (requeue_plan t o given now).1 later
          w.queue,
      other,
    ),
    rw (lookup-remove o.key j w.wip, other),
  )

  -- A failure retry, which names a backoff delay, puts the key back with the attempt count of its
  -- owner, not before the delay has passed, and at the priority given or else at the owner's: if the
  -- key was not enqueued again in the meantime.
  pub requeue_backoff_keeps_attempts :
      pos 0 <ℤ given.backoff_delay
      → lookup o.key w.queue ≡ none
      → (item : QueueItem) × (lookup o.key (requeue_with_options t o given now later w).1.queue
          ≡ some item)
        × (item.attempts ≡ o.attempts)
        × (item.options.not_before ≡ add_time now given.backoff_delay)
        × (item.options.priority
            ≡ (if eqb_ℤ given.priority (pos 0) then o.options.priority else given.priority))
  unfolding after admit
  requeue_backoff_keeps_attempts positive no_twin = (
    admit none (requeue_plan t o given now).0 (requeue_plan t o given now).1 later,
    entry_at none no_twin,
    (plan_backoff positive).0,
    (plan_backoff positive).1,
    plan_priority,
  )

  -- A requeue with a delay of its own starts the attempts afresh.
  pub requeue_delay_resets_attempts :
      given.backoff_delay ≤ℤ pos 0
      → pos 0 <ℤ given.delay
      → lookup o.key w.queue ≡ none
      → (item : QueueItem) × (lookup o.key (requeue_with_options t o given now later w).1.queue
          ≡ some item)
        × (item.attempts ≡ 0)
        × (item.options.not_before ≡ add_time now given.delay)
        × (item.options.not_before_floor ≡ given.not_before_floor)
  unfolding after admit
  requeue_delay_resets_attempts no_backoff positive no_twin = (
    admit none (requeue_plan t o given now).0 (requeue_plan t o given now).1 later,
    entry_at none no_twin,
    (plan_delay no_backoff positive).0,
    (plan_delay no_backoff positive).1,
    plan_floor,
  )
