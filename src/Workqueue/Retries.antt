-- ===== src/Workqueue/Retries.antt =====
-- The dispatcher of workqueue/dispatcher over the queue of workqueue/inmem: the life of a key whose
-- callback keeps failing.
pub mod Step
pub mod Life
use mathlib.Core.List.{append-nil, map-append}
use go_driftlessaf.Workqueue.Policy.Backoff.{retry_delay_range}
use go_driftlessaf.Base.{
  ◌*◌, two63, leb, le→leb, lt→leb, ℕ, zero, suc, ◌+◌, ◌-◌, ◌≤◌, ◌<◌, ◌≡◌, refl, sym, ap, ◌∙◌,
  String, Bool, true, false, ◌&&◌, Option, none, some, List, [], ◌∷◌, ◌++◌, map, arith, inl, inr,
  ◌⊎◌, if◌then◌else◌, length, ℤ, pos, ltb_ℤ, leb_ℤ, ◌≤ℤ◌, ◌<ℤ◌, Bool-cases, Option-cases, lookup,
  is_some, insert, remove, lookup-insert, lookup-remove, eq_refl, str_eq,
}
use go_driftlessaf.Clock.{Instant, Duration}
use go_driftlessaf.Workqueue.Errors.{
  Err, QueueKey, get_requeue_options, get_queue_keys, get_non_retriable_details,
  is_infrastructure_error,
}
use go_driftlessaf.Workqueue.Options.{Options, no_options}
use go_driftlessaf.Workqueue.Interface.{Backend, Reply, ok, err}
use go_driftlessaf.Workqueue.Inmem.{
  Wq, QueueItem, QueuedKey, InProgressKey, running, started, start, queued_key, deadletter,
  requeue_with_options, requeue_plan, admit, upsert,
}
use go_driftlessaf.Workqueue.Inmem.Entries.{lookup-upsert}
use go_driftlessaf.Workqueue.Inmem.Requeue.{requeue_backoff_keeps_attempts, requeue_settles}
use go_driftlessaf.Workqueue.Inmem.Service.{Server, service, with_queue}
use go_driftlessaf.Workqueue.Policy.{
  Config, Input, ErrorContext, ErrorAction, error_requeued, error_dead_lettered, Plan, buried,
  retried, plan, retry_delay,
}
use go_driftlessaf.Workqueue.Dispatcher.{Task, launched, finished, settling, step_task, run_task}

-- An error that is neither a requeue, nor keys to queue, nor marked as not to be retried.
pub record IsPlain (c : Config) (e : Err) : Type 0 where
  pub no_requeue : get_requeue_options (some e) ≡ none
  pub no_keys : get_queue_keys (some e) ≡ []
  pub retriable : get_non_retriable_details c.grpc (some e) ≡ none

abbrev pub budget_spent : Config → ℤ → Bool
budget_spent c attempts = ltb_ℤ (pos 0) c.max_retry && leb_ℤ c.max_retry attempts

-- A pass takes up one queued key: it is started, its callback fails with `e`, and it is settled.
abbrev pub failing_input : Err → ℕ → Input
failing_input e random = record { reply = some e; random = random; now = pos 0 }

unfoldable pub attempt : Config → Err → ℕ → String → Server → List ErrorContext × Server
attempt c e random k s = elim (lookup k s.wq.queue) [
  | none ↦ ([], s)
  | some qi ↦
      let i = failing_input e random in
      let (t, s', events) =
        run_task (service c.tuning) c (i ∷ i ∷ i ∷ []) (launched (queued_key k qi)) s in
      (events, s')
]

unfoldable pub attempts : Config → Err → (ℕ → ℕ) → String → ℕ → Server → List ErrorContext × Server
attempts c e random k zero s = ([], s)
attempts c e random k (suc n) s =
    let (events, s') = attempt c e (random n) k s in
    let (more, s'') = attempts c e random k n s' in (events ++ more, s'')

-- The key waits with so many attempts behind it, and nobody works on it.
pub record Waits (k : String) (n : ℕ) (s : Server) : Type 0 where
  pub item : QueueItem
  pub here : lookup k s.wq.queue ≡ some item
  pub idle : lookup k s.wq.wip ≡ none
  pub count : item.attempts ≡ n

-- Neither waiting nor in progress.
abbrev pub Gone : String → Server → Type 0
Gone k s = (lookup k s.wq.queue ≡ none) × (lookup k s.wq.wip ≡ none)

-- What an observer sees of the life of such a key: each attempt's number, and what became of it.
abbrev pub outcomes : List ErrorContext → List (ℤ × ErrorAction)
outcomes = map (λ x. (x.attempts, x.action))

-- With `n` attempts behind it and `left` requeues to come, a dead letter ends it.
abbrev pub expected : ℕ → ℕ → List (ℤ × ErrorAction)
expected n zero = (pos (suc n), error_dead_lettered) ∷ []
expected n (suc left) = (pos (suc n), error_requeued) ∷ expected (suc n) left
