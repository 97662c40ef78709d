-- ===== src/Workqueue/Inmem/History.antt =====
-- Histories of calls on the queue of workqueue/inmem/inmem.go, in the order in which its mutex
-- admits them.
use go_driftlessaf.Base.{
  ◌≡◌, String, Bool, true, false, ◌||◌, Option, none, some, List, [], ◌∷◌, arith, str_eq, lookup,
  is_some, UniqueKeys, insert-UniqueKeys, remove-UniqueKeys, eq_refl, lookup-insert, lookup-remove,
}
use go_driftlessaf.Clock.{Instant}
use go_driftlessaf.Workqueue.Options.{Options, Tuning}
use go_driftlessaf.Workqueue.Inmem.Entries.{lookup-upsert}
use go_driftlessaf.Workqueue.Inmem.{
  Wq, QueuedKey, InProgressKey, Started, started, failed, already_in_progress, enqueue, start,
  requeue_with_options, deadletter, complete, requeue_plan, upsert,
}

pub data Op : Type 0 where
  enqueues : String → Options → Instant → Op
  starts : QueuedKey → Instant → Op
  requeues : InProgressKey → Options → Instant → Instant → Op
  deadletters completes : InProgressKey → Op

-- A start that fails, and a completion that panics, leave the queue as it was.
abbrev after_start : Wq → Started → Wq
after_start w (started o w') = w'
after_start w (failed e) = w

abbrev after_complete : Wq → Option (InProgressKey × Wq) → Wq
after_complete w none = w
after_complete w (some (o, w')) = w'

unfoldable pub run_op : Tuning → Op → Wq → Wq
run_op t (enqueues key opts now) w = enqueue key opts now w
run_op t (starts q now) w = after_start w (start q now w)
run_op t (requeues o given now later) w = (requeue_with_options t o given now later w).1
run_op t (deadletters o) w = (deadletter o w).1
run_op t (completes o) w = after_complete w (complete o w)

unfoldable pub run_ops : Tuning → List Op → Wq → Wq
run_ops t [] w = w
run_ops t (op ∷ ops) w = run_ops t ops (run_op t op w)

pub record IsWf (w : Wq) : Type 0 where
  pub wip_unique : UniqueKeys w.wip
  pub queue_unique : UniqueKeys w.queue

run_op-IsWf : (t : Tuning) (op : Op) (w : Wq) → IsWf w → IsWf (run_op t op w)
unfolding run_op enqueue start requeue_with_options deadletter complete upsert
run_op-IsWf t (enqueues key opts now) w h = record {
  wip_unique = h.wip_unique;
  queue_unique = insert-UniqueKeys key _ w.queue h.queue_unique;
}
run_op-IsWf t (starts q now) w h = ground (
  arith,
  insert-UniqueKeys q.key (record { options = q.options; attempts = q.attempts; enqueued = now })
      w.wip,
  remove-UniqueKeys q.key w.queue,
)
run_op-IsWf t (requeues o given now later) w h = record {
  wip_unique = remove-UniqueKeys o.key w.wip h.wip_unique;
  queue_unique = insert-UniqueKeys o.key _ w.queue h.queue_unique;
}
run_op-IsWf t (deadletters o) w h = record {
  wip_unique = remove-UniqueKeys o.key w.wip h.wip_unique;
  queue_unique = h.queue_unique;
}
run_op-IsWf t (completes o) w h = ground (arith, remove-UniqueKeys o.key w.wip)

-- No history of calls makes a key stand twice among the queued keys or the keys in progress.
pub run_ops-IsWf : (t : Tuning) (ops : List Op) (w : Wq) → IsWf w → IsWf (run_ops t ops w)
unfolding run_ops
run_ops-IsWf t [] w h = h
run_ops-IsWf t (op ∷ ops) w h = run_ops-IsWf t ops (run_op t op w) (run_op-IsWf t op w h)

-- The calls that end an attempt on a key, and those that give the key up for good.
abbrev pub settles : Op → String → Bool
settles (enqueues key opts now) k = false
settles (starts q now) k = false
settles (requeues o given now later) k = str_eq o.key k
settles (deadletters o) k = str_eq o.key k
settles (completes o) k = str_eq o.key k

abbrev pub gives_up : Op → String → Bool
gives_up (deadletters o) k = str_eq o.key k
gives_up (completes o) k = str_eq o.key k
gives_up _ k = false

abbrev pub any_call {ℓ} : {A : Type ℓ} → (A → String → Bool) → List A → String → Bool
any_call bad [] k = false
any_call bad (x ∷ xs) k = bad x k || any_call bad xs k

abbrev pub is_running : String → Wq → Bool
is_running k w = is_some (lookup k w.wip)

abbrev pub is_tracked : String → Wq → Bool
is_tracked k w = is_some (lookup k w.wip) || is_some (lookup k w.queue)

run_op-running :
    (t : Tuning) (op : Op) (w : Wq) (k : String)
    → settles op k ≡ false
    → is_running k w ≡ true
    → is_running k (run_op t op w) ≡ true
unfolding run_op enqueue start requeue_with_options deadletter complete
run_op-running t (enqueues key opts now) w k h r = r
run_op-running t (starts q now) w k h r = ground (
  arith,
  lookup-insert q.key k (record { options = q.options; attempts = q.attempts; enqueued = now })
      w.wip,
)
run_op-running t (requeues o given now later) w k h r = ground (arith, lookup-remove o.key k w.wip)
run_op-running t (deadletters o) w k h r = ground (arith, lookup-remove o.key k w.wip)
run_op-running t (completes o) w k h r = ground (arith, lookup-remove o.key k w.wip)

run_op-tracked :
    (t : Tuning) (op : Op) (w : Wq) (k : String)
    → gives_up op k ≡ false
    → is_tracked k w ≡ true
    → is_tracked k (run_op t op w) ≡ true
unfolding run_op enqueue start requeue_with_options deadletter complete
run_op-tracked t (enqueues key opts now) w k h r =
    ground (arith, lookup-upsert key k opts 0 now w.queue)
run_op-tracked t (starts q now) w k h r = ground (
  arith,
  lookup-insert q.key k (record { options = q.options; attempts = q.attempts; enqueued = now })
      w.wip,
  lookup-remove q.key k w.queue,
)
run_op-tracked t (requeues o given now later) w k h r =
    let (opts, attempts) = requeue_plan t o given now in
    ground (arith, lookup-remove o.key k w.wip, lookup-upsert o.key k opts attempts later w.queue)
run_op-tracked t (deadletters o) w k h r = ground (arith, lookup-remove o.key k w.wip)
run_op-tracked t (completes o) w k h r = ground (arith, lookup-remove o.key k w.wip)

or_false : (a b : Bool) → (a || b) ≡ false → (a ≡ false) × (b ≡ false)
or_false a b h = ground arith

run_ops-running :
    (t : Tuning) (ops : List Op) (w : Wq) (k : String)
    → any_call settles ops k ≡ false
    → is_running k w ≡ true
    → is_running k (run_ops t ops w) ≡ true
unfolding run_ops
run_ops-running t [] w k h r = r
run_ops-running t (op ∷ ops) w k h r =
    let (now, later) = or_false (settles op k) (any_call settles ops k) h in
    run_ops-running t ops (run_op t op w) k later (run_op-running t op w k now r)

started_running :
    (q : QueuedKey) (now : Instant) (w w' : Wq) (o : InProgressKey)
    → start q now w ≡ started o w'
    → is_running q.key w' ≡ true
unfolding start
started_running q now w w' o s = ground (
  arith,
  eq_refl q.key,
  lookup-insert q.key q.key (record { options = q.options; attempts = q.attempts; enqueued = now })
      w.wip,
)

running_refuses :
    (p : QueuedKey) (later : Instant) (w : Wq)
    → is_running p.key w ≡ true
    → start p later w ≡ failed already_in_progress
unfolding start
running_refuses p later w r = rw r

-- Once a key is started, every start of it fails, and changes nothing, until a requeue, a dead
-- letter or a completion of that key, whatever other calls come between.
pub start_excludes :
    (t : Tuning) (q p : QueuedKey) (now later : Instant) (w w' : Wq) (o : InProgressKey)
    (ops : List Op)
    → start q now w ≡ started o w'
    → p.key ≡ q.key
    → any_call settles ops q.key ≡ false
    → start p later (run_ops t ops w') ≡ failed already_in_progress
start_excludes t q p now later w w' o ops s e h =
    running_refuses p later (run_ops t ops w')
      (rw e (run_ops-running t ops w' q.key h (started_running q now w w' o s)))

-- A queued key, or a key in progress, is never lost: it is queued or in progress after any calls
-- among which none completes it or dead-letters it.
pub run_ops-tracked :
    (t : Tuning) (ops : List Op) (w : Wq) (k : String)
    → any_call gives_up ops k ≡ false
    → is_tracked k w ≡ true
    → is_tracked k (run_ops t ops w) ≡ true
unfolding run_ops
run_ops-tracked t [] w k h r = r
run_ops-tracked t (op ∷ ops) w k h r =
    let (now, later) = or_false (gives_up op k) (any_call gives_up ops k) h in
    run_ops-tracked t ops (run_op t op w) k later (run_op-tracked t op w k now r)
