-- ===== src/Workqueue/Inmem/Service.antt =====
-- The queue of workqueue/inmem/inmem.go behind workqueue.Interface, with the clock that it reads.
use go_driftlessaf.Base.{ℕ, ◌+◌, String, Option, none, some, pos}
use go_driftlessaf.Clock.{Instant}
use go_driftlessaf.Workqueue.Options.{Tuning}
use go_driftlessaf.Workqueue.Errors.{Err, other}
use go_driftlessaf.Workqueue.Interface.{Backend, Reply, ok, err}
use go_driftlessaf.Workqueue.Inmem.{
  Wq, InProgressKey, QueuedKey, Started, StartError, started, failed, already_in_progress,
  disappeared, enumerate, enqueue, start, requeue, requeue_with_options, complete, deadletter,
  is_orphaned,
}

-- The times at which the clock is read, which the key that is looked at tells apart within
-- Enumerate; each call on the queue takes two of them.
pub record Server : Type 0 where
  pub wq : Wq
  pub clock : ℕ → String → Instant
  pub calls : ℕ

abbrev pub with_queue : Server → Wq → Server
with_queue s w = record s { wq = w; calls = s.calls + 2 }

abbrev pub time : Server → String → Instant
time s k = s.clock s.calls k

abbrev pub later : Server → String → Instant
later s k = s.clock (s.calls + 1) k

-- The two errors of Start.
abbrev pub start_error : StartError → Err
start_error already_in_progress = other 0
start_error disappeared = other 1

abbrev pub started_reply : Server → Started → Reply InProgressKey × Server
started_reply s (started o w) = (ok o, with_queue s w)
started_reply s (failed e) = (err (start_error e), s)

abbrev pub completed_reply : Server → Option (InProgressKey × Wq) → Option Err × Server
completed_reply s none = (none, s)
completed_reply s (some (o, w)) = (none, with_queue s w)

abbrev pub service : Tuning → Backend
service t = record {
  State = Server;
  Observed = InProgressKey;
  Waiting = QueuedKey;
  Owned = InProgressKey;
  enumerate = λ s. (ok (enumerate (time s) s.wq), with_queue s s.wq);
  enqueue = λ k opts s. (none, with_queue s (enqueue k opts (time s k) s.wq));
  observed_name = λ o. o.key;
  is_orphaned = λ o s. is_orphaned o;
  requeue_observed =
      λ o s. (none, with_queue s (requeue t o (time s o.key) (later s o.key) s.wq).1);
  waiting_name = λ q. q.key;
  start = λ q s. started_reply s (start q (time s q.key) s.wq);
  owned_name = λ o. o.key;
  owned_priority = λ o. o.options.priority;
  get_attempts = λ o. pos o.attempts;
  requeue = λ o s. (none, with_queue s (requeue t o (time s o.key) (later s o.key) s.wq).1);
  requeue_with_options = λ o opts s.
      (none, with_queue s (requeue_with_options t o opts (time s o.key) (later s o.key) s.wq).1);
  complete = λ o s. completed_reply s (complete o s.wq);
  deadletter = λ o s. (none, with_queue s (deadletter o s.wq).1);
}
