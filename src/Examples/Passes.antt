-- ===== src/Examples/Passes.antt =====
-- Passes of workqueue/dispatcher over the in-memory queue, on concrete queues.
use go_driftlessaf.Base.{
  ◌≡◌, refl, ◌*◌, ◌-◌, ◌≤◌, String, true, none, some, List, [], ◌∷◌, ◌++◌, map, arith, pos, lookup,
  take, length, sort, insort, ◌≤ℤ◌, ◌<ℤ◌,
}
use go_driftlessaf.Workqueue.Options.{no_options, default_tuning}
use go_driftlessaf.Workqueue.Errors.{other, get_queue_keys}
use go_driftlessaf.Workqueue.Interface.{ok}
use go_driftlessaf.Workqueue.Inmem.{
  QueueItem, QueuedKey, InProgressKey, observer, enumerate, collect_all, collect,
}
use go_driftlessaf.Workqueue.Inmem.Service.{Server, service}
use go_driftlessaf.Workqueue.Policy.{Config, Input, plan}
use go_driftlessaf.Workqueue.Dispatcher.{launched, orphaned, run_task, has_name, handle_async}
use go_driftlessaf.Workqueue.Dispatcher.Launch.{
  Distinct, alive, orphans_of, fresh, slots, handle_async-tasks,
}
use go_driftlessaf.Workqueue.Dispatcher.Tasks.{is_finished, launched_finishes}
use go_driftlessaf.Workqueue.Retries.{attempts}
use go_driftlessaf.Clock.{add_time, times_int64, second}
use go_driftlessaf.Workqueue.Policy.{delayed}
use go_driftlessaf.Workqueue.Options.{Options}
use go_driftlessaf.Workqueue.Inmem.{InProgressKey, running, requeue_with_options}
use go_driftlessaf.Base.{pos_part, false}
use go_driftlessaf.Workqueue.Callback.{
  ProcessResponse, service_callback, drain_requeue_response, drain_requeue_delay,
  drain_requeue_jitter,
}
use go_driftlessaf.Workqueue.Drain.{
  Arrival, started, after_drain, returned, drain_interceptor, is_interrupted,
  interrupted_spares_budget,
}
use go_driftlessaf.Workqueue.Interface.{err}
use go_driftlessaf.Examples.Status.{plain_grpc}

abbrev pub config : Config
config = record { tuning = default_tuning; max_retry = pos 2; backoff = none; grpc = plain_grpc }

abbrev item : QueueItem
item = record { options = no_options; attempts = 0; enqueued = pos 10 }

-- "a" is in progress, and "b" waits.
abbrev server : Server
server = record {
  wq = record { limit = 5; wip = ("a", item) ∷ []; queue = ("b", item) ∷ [] };
  clock = λ n k. pos (n * 1000);
  calls = 0;
}

abbrev next_b : QueuedKey
next_b = record { options = no_options; key = "b"; attempts = 0; stamp = pos 10 }

abbrev seen_a : InProgressKey
seen_a = record { options = no_options; key = "a"; attempts = 0; owner = observer }

handle_async-tasks_example :
    let live = map (λ o. o.key) (alive (service default_tuning) config server (seen_a ∷ [])) in
    (active : List String) × Distinct active
    × ((k : String) → has_name k active ≡ has_name k live)
    × (let chosen =
          take
            (slots (service default_tuning) config (pos 3) (pos 0) (length active))
            (fresh (service default_tuning) config active (next_b ∷ [])) in
        (handle_async (service default_tuning) config (pos 3) (pos 0) server ≡ (
          ok (
              map orphaned (orphans_of (service default_tuning) config server (seen_a ∷ []))
              ++ map launched chosen),
          record server { calls = 2 },
        ))
        × (length chosen ≤ 3 - length active))
unfolding enumerate collect_all collect sort insort
handle_async-tasks_example =
    handle_async-tasks (service default_tuning) config (pos 3) (pos 0) server
      (record server { calls = 2 }) (seen_a ∷ []) (next_b ∷ []) refl

launched_finishes_example :
    let i : Input = record { reply = none; random = 0; now = pos 0 } in
    is_finished
      (service default_tuning)
      config
      (run_task (service default_tuning) config (i ∷ i ∷ i ∷ i ∷ i ∷ []) (launched next_b) server).0
    ≡ true
unfolding get_queue_keys
launched_finishes_example =
    let i : Input = record { reply = none; random = 0; now = pos 0 } in
    launched_finishes (service default_tuning) config i i (i ∷ i ∷ i ∷ []) next_b server
      (omega arith)

abbrev reply_keys : ProcessResponse
reply_keys = record {
  requeue_after_seconds = pos 0;
  requeue_floor = false;
  queue_keys = (record { key = "b"; priority = pos 3; delay_seconds = pos 0 }) ∷ [];
}

abbrev owned_c : InProgressKey
owned_c = record { options = no_options; key = "c"; attempts = 3; owner = running }

-- A handler that fails because the drain canceled its context.
abbrev late_failure : Arrival
late_failure = started (after_drain (returned (err (other 4))) true)

interrupted_spares_budget_example :
    let response = drain_requeue_response drain_requeue_delay drain_requeue_jitter 8 in
    (opts : Options) × (plan config
        (pos 0)
        (pos 3)
        5
        (service_callback (drain_interceptor 8 late_failure))
      ≡ delayed opts)
    × ((item : QueueItem) × (lookup "c"
            (requeue_with_options default_tuning owned_c opts (pos 100) (pos 101) server.wq).1.queue
          ≡ some item)
        × (item.attempts ≡ 0)
        × (item.options.not_before
            ≡ add_time (pos 100) (times_int64 (pos_part response.requeue_after_seconds) second)))
    × (pos 15 ≤ℤ response.requeue_after_seconds)
    × (response.requeue_after_seconds <ℤ pos 45)
unfolding lookup is_interrupted
interrupted_spares_budget_example =
    interrupted_spares_budget config (pos 0) (pos 3) 5 8 default_tuning owned_c (pos 100) (pos 101)
      server.wq late_failure refl refl
