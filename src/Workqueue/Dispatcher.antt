-- ===== src/Workqueue/Dispatcher.antt =====
-- workqueue/dispatcher/dispatcher.go: one pass of the dispatcher over a queue. A goroutine of the pass
-- is a task, which takes one step for each call that it makes on the queue and one for the callback;
-- between its steps the other tasks, and other processes, may take theirs.
pub mod Launch
pub mod Tasks
use go_driftlessaf.Base.{
  to_int64, ℕ, zero, suc, ◌+◌, ◌-◌, ◌/◌, ◌%◌, String, Bool, true, false, ◌||◌, ◌&&◌, Option, none,
  some, List, [], ◌∷◌, ◌++◌, map, if◌then◌else◌, length, str_eq, ltb, ℤ, pos, pos_part, ltb_ℤ,
  leb_ℤ, min_ℤ, ◌+ℤ◌, ◌-ℤ◌,
}
use go_driftlessaf.Clock.{Instant, Duration, add_time, times_int64, second}
use go_driftlessaf.Workqueue.Options.{Options, no_options, Tuning}
use go_driftlessaf.Workqueue.Errors.{
  Err, wrapped, QueueKey, GrpcStatus, get_requeue_options, get_queue_keys,
  get_non_retriable_details, is_infrastructure_error,
}
use go_driftlessaf.Workqueue.Interface.{Backend, Reply, ok, err}
use go_driftlessaf.Workqueue.Policy.{
  Config, Input, ErrorContext, ErrorAction, error_requeued, error_dead_lettered, error_dropped,
  Plan, delayed, queued_first, buried, dropped, retried, completed, plan,
}

abbrev queue_options : Instant → QueueKey → Options
queue_options now qk =
    if ltb_ℤ (pos 0) qk.delay_seconds
    then record no_options {
      priority = qk.priority;
      not_before = add_time now (times_int64 (pos_part qk.delay_seconds) second);
    }
    else record no_options { priority = qk.priority }

-- An error that the task returns, wrapped by a message.
abbrev failing : String → Option Err → Option Err
failing s none = none
failing s (some e) = some (wrapped s e)

-- A set of names.
unfoldable pub has_name : String → List String → Bool
has_name k [] = false
has_name k (j ∷ js) = if str_eq j k then true else has_name k js

unfoldable pub add_name : String → List String → List String
unfolding has_name
add_name k js = if has_name k js then js else k ∷ js

module _ (b : Backend) (c : Config) where
  open b use {State, Observed, Waiting, Owned}

  pub data Task : Type 0 where
    orphaned : Observed → Task
    launched : Waiting → Task
    working : Owned → Task
    settling : Owned → Plan → Task
    queueing : Owned → List QueueKey → Task
    giving_back : Owned → Task
    finished : Option Err → Task

  -- A task, the state of the queue, and the error events that were emitted.
  abbrev Effect : Type 0
  Effect = Task × State × List ErrorContext

  context : Owned → Err → ErrorAction → Option String → Bool → ErrorContext
  context o e action reason infrastructure = record {
    key = b.owned_name o;
    cause = e;
    attempts = b.get_attempts o;
    action = action;
    non_retriable_reason = reason;
    infrastructure = infrastructure;
  }

  -- The end of a task whose last call may fail; the event is emitted only if it does not.
  close : String → List ErrorContext → Option Err × State → Effect
  close what events (none, s) = (finished none, s, events)
  close what events (some e, s) = (finished (some (wrapped what e)), s, [])

  started_task : Reply Owned × State → Effect
  started_task (ok o, s) = (working o, s, [])
  started_task (err e, s) = (finished none, s, [])

  queued_task : Owned → List QueueKey → Option Err × State → Effect
  queued_task o ks (none, s) = (queueing o ks, s, [])
  queued_task o ks (some e, s) = (giving_back o, s, [])

  settle : Plan → Owned → State → Effect
  unfolding close context
  settle (delayed opts) o s =
      close "requeue(after delay request)" [] (b.requeue_with_options o opts s)
  settle (queued_first ks) o s = (queueing o ks, s, [])
  settle (buried e) o s =
      close "fail(after reaching max retries)"
        (context o e error_dead_lettered none (is_infrastructure_error c.grpc (some e)) ∷ [])
        (b.deadletter o s)
  settle (dropped e reason) o s =
      close "complete(after non-retriable error)"
        (context o e error_dropped (some reason) false ∷ []) (b.complete o s)
  settle (retried e delay) o s =
      close "requeue(after failed callback)"
        (context o e error_requeued none (is_infrastructure_error c.grpc (some e)) ∷ [])
        (b.requeue_with_options o (record no_options { backoff_delay = delay }) s)
  settle completed o s = close "complete()" [] (b.complete o s)

  -- One step of a goroutine of the pass.
  unfoldable pub step_task : Input → Task → State → Effect
  unfolding settle started_task queued_task close plan
  step_task i (orphaned x) s = let (e, s') = b.requeue_observed x s in (finished e, s', [])
  step_task i (launched q) s = started_task (b.start q s)
  step_task i (working o) s =
      (settling o (plan c (b.owned_priority o) (b.get_attempts o) i.random i.reply), s, [])
  step_task i (settling o p) s = settle p o s
  step_task i (queueing o []) s = settle completed o s
  step_task i (queueing o (k ∷ ks)) s = queued_task o ks (b.enqueue k.key (queue_options i.now k) s)
  step_task i (giving_back o) s = close "requeue(after queue failure)" [] (b.requeue o s)
  step_task i (finished e) s = (finished e, s, [])

  -- The steps of one task with nothing between them.
  unfoldable pub run_task : List Input → Task → State → Effect
  run_task [] t s = (t, s, [])
  run_task (i ∷ is) t s =
      let (t', s', events) = step_task i t s in
      let (t'', s'', more) = run_task is t' s' in (t'', s'', events ++ more)

  -- The loop over the keys in progress: the names of the active ones, and a task for each orphan.
  unfoldable pub survey : State → List String → List Observed → List String × List Task
  unfolding add_name
  survey s active [] = (active, [])
  survey s active (x ∷ xs) =
      let lost = b.is_orphaned x s in
      let (names, tasks) =
        survey s (if lost then active else add_name (b.observed_name x) active) xs in
      (names, if lost then orphaned x ∷ tasks else tasks)

  -- The loop over the next keys; `room` is launchLimit less the keys launched so far.
  unfoldable pub launch : List String → ℕ → List Waiting → List Task
  launch active zero next = []
  launch active (suc room) [] = []
  launch active (suc room) (q ∷ next) =
      let skip = launch active (suc room) next in
      let take = launched q ∷ launch active room next in
      if has_name (b.waiting_name q) active then skip else take

  unfoldable pub launch_limit : ℤ → ℤ → ℕ → ℤ
  launch_limit concurrency batch_size wip =
      let batch =
        if leb_ℤ batch_size (pos 0) || ltb_ℤ concurrency batch_size
        then concurrency
        else batch_size in
      min_ℤ batch (concurrency -ℤ pos wip)

  unfoldable pub dispatch : ℤ → ℤ → List Waiting → List String × List Task → List Task
  unfolding launch launch_limit
  dispatch concurrency batch_size next (active, orphans) =
      if leb_ℤ concurrency (pos (length active))
      then orphans
      else orphans
        ++ launch active (pos_part (launch_limit concurrency batch_size (length active))) next

  planned : ℤ → ℤ → Reply (List Observed × List Waiting) × State → Reply (List Task) × State
  unfolding dispatch survey
  planned concurrency batch_size (err e, s) = (err (wrapped "enumerate()" e), s)
  planned concurrency batch_size (ok (wip, next), s) =
      (ok (dispatch concurrency batch_size next (survey s [] wip)), s)

  -- HandleAsync up to the returned future: the goroutines that it starts, or the error of Enumerate.
  unfoldable pub handle_async : ℤ → ℤ → State → Reply (List Task) × State
  unfolding planned
  handle_async concurrency batch_size s = planned concurrency batch_size (b.enumerate s)
