-- ===== src/Examples/Queue.antt =====
-- The in-memory queue of workqueue/inmem/inmem.go on concrete queues.
use mathlib.Core.List.{Permᴰ}
use go_driftlessaf.Base.{◌≡◌, refl, true, List, [], ◌∷◌, pos, lookup, insert, remove}
use go_driftlessaf.Workqueue.Options.{Options, no_options, default_tuning}
use go_driftlessaf.Workqueue.Inmem.{
  Wq, QueueItem, QueuedKey, InProgressKey, new, running, start, failed, already_in_progress,
  requeue_with_options,
}
use go_driftlessaf.Workqueue.Inmem.History.{
  Op, enqueues, starts, completes, run_ops, is_tracked, start_excludes, run_ops-tracked,
}
use go_driftlessaf.Workqueue.Inmem.Merge.{Call, view, enqueue_all, enqueue_order_free}

abbrev urgent : Options
urgent = record no_options { priority = pos 7; not_before = pos 20 }

abbrev held : Options
held = record no_options { priority = pos 1; not_before = pos 90; not_before_floor = true }

abbrev item_a : QueueItem
item_a = record { options = urgent; attempts = 2; enqueued = pos 10 }

abbrev item_b : QueueItem
item_b = record { options = held; attempts = 0; enqueued = pos 11 }

abbrev waiting_ab : Wq
waiting_ab = record { limit = 2; wip = []; queue = ("a", item_a) ∷ ("b", item_b) ∷ [] }

abbrev next_a : QueuedKey
next_a = record { options = urgent; key = "a"; attempts = 2; stamp = pos 10 }

abbrev owned_a : InProgressKey
owned_a = record { options = urgent; key = "a"; attempts = 3; owner = running }

abbrev owned_b : InProgressKey
owned_b = record { options = held; key = "b"; attempts = 1; owner = running }

abbrev two_calls : List Call
two_calls =
    (record { key = "a"; options = urgent; at = pos 10 })
    ∷ (record { key = "a"; options = held; at = pos 11 })
    ∷ []

abbrev two_calls_late : List Call
two_calls_late =
    (record { key = "a"; options = held; at = pos 11 })
    ∷ (record { key = "a"; options = urgent; at = pos 10 })
    ∷ []

-- "a" is in progress, and "b" waits.
abbrev running_a : Wq
running_a = record {
  limit = 2;
  wip = ("a", record item_a { enqueued = pos 30 }) ∷ [];
  queue = ("b", item_b) ∷ [];
}

-- "a" is enqueued again, and "b" comes and goes.
abbrev others : List Op
others = enqueues "a" held (pos 31) ∷ completes owned_b ∷ starts next_a (pos 32) ∷ []

start_excludes_example :
    start next_a (pos 40) (run_ops default_tuning others running_a) ≡ failed already_in_progress
unfolding lookup insert remove start
start_excludes_example =
    start_excludes default_tuning next_a next_a (pos 30) (pos 40) waiting_ab running_a owned_a
      others refl refl refl

run_ops-tracked_example : is_tracked "a" (run_ops default_tuning others running_a) ≡ true
unfolding lookup
run_ops-tracked_example = run_ops-tracked default_tuning others running_a "a" refl refl

enqueue_order_free_example :
    view "a" (enqueue_all two_calls (new 3)) ≡ view "a" (enqueue_all two_calls_late (new 3))
enqueue_order_free_example =
    enqueue_order_free "a" two_calls two_calls_late (new 3) ∣ Permᴰ.swap refl refl ∣₁

abbrev retry : Options
retry = record no_options { backoff_delay = pos 500 }

abbrev later_on : Options
later_on = record no_options { delay = pos 500; priority = pos 2 }

abbrev back : Options → Wq → Wq
back opts w = (requeue_with_options default_tuning owned_a opts (pos 100) (pos 101) w).1

-- "a" was enqueued again while it was in progress.
abbrev running_a_twin : Wq
running_a_twin = record running_a { queue = ("a", record item_b { attempts = 0 }) ∷ [] }
