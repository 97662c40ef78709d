-- ===== src/Workqueue/Retries/Step.antt =====
-- One attempt on a failing key, over workqueue/dispatcher/dispatcher.go and
-- workqueue/inmem/inmem.go: the last one of the retry budget, and those before it.
use go_driftlessaf.Base.{
  leb, le→leb, lt→leb, ℕ, suc, ◌+◌, ◌<◌, ◌≡◌, ap, ◌∙◌, String, true, false, none, some, [], ◌∷◌,
  arith, inl, inr, if◌then◌else◌, ℤ, pos, ◌<ℤ◌, Bool-cases, lookup, insert, remove, lookup-remove,
  eq_refl,
}
use go_driftlessaf.Clock.{Instant, Duration}
use go_driftlessaf.Workqueue.Errors.{Err, is_infrastructure_error}
use go_driftlessaf.Workqueue.Options.{Options, no_options}
use go_driftlessaf.Workqueue.Inmem.{
  Wq, QueueItem, InProgressKey, running, started, start, queued_key, deadletter,
  requeue_with_options,
}
use go_driftlessaf.Workqueue.Inmem.Requeue.{requeue_backoff_keeps_attempts, requeue_settles}
use go_driftlessaf.Workqueue.Inmem.Service.{Server, with_queue}
use go_driftlessaf.Workqueue.Policy.{
  Config, ErrorContext, ErrorAction, error_requeued, error_dead_lettered, buried, retried, plan,
  retry_delay,
}
use go_driftlessaf.Workqueue.Dispatcher.{step_task, run_task}
use go_driftlessaf.Workqueue.Retries.{
  IsPlain, budget_spent, attempt, attempts, Waits, Gone, outcomes,
}

plan_plain :
    (c : Config) (priority attempts : ℤ) (random : ℕ) (e : Err)
    → IsPlain c e
    → plan c priority attempts random (some e)
      ≡ (if budget_spent c attempts then buried e else retried e (retry_delay c attempts random))
unfolding plan
plan_plain c priority attempts random e h = ground arith

owned : String → QueueItem → InProgressKey
owned k qi = record { options = qi.options; key = k; attempts = qi.attempts + 1; owner = running }

start_ok :
    (k : String) (qi : QueueItem) (now : Instant) (w : Wq)
    → lookup k w.queue ≡ some qi
    → lookup k w.wip ≡ none
    → start (queued_key k qi) now w
      ≡ started (owned k qi) (record w {
        queue = remove k w.queue;
        wip =
            insert k
              (record { options = qi.options; attempts = qi.attempts; enqueued = now })
              w.wip;
      })
unfolding start queued_key owned
start_ok k qi now w here idle = ground arith

-- The server once the key is started.
busy : String → QueueItem → Server → Server
busy k qi s = with_queue s (record s.wq {
  queue = remove k s.wq.queue;
  wip =
      insert k
        (record { options = qi.options; attempts = qi.attempts; enqueued = s.clock s.calls k })
        s.wq.wip;
})

event : Config → Err → String → ℕ → ErrorAction → ErrorContext
event c e k n action = record {
  key = k;
  cause = e;
  attempts = pos n;
  action = action;
  non_retriable_reason = none;
  infrastructure = is_infrastructure_error c.grpc (some e);
}

attempt_lem :
    (c : Config) (e : Err) (random : ℕ) (k : String) (s : Server) (qi : QueueItem)
    → IsPlain c e
    → lookup k s.wq.queue ≡ some qi
    → lookup k s.wq.wip ≡ none
    → let o = owned k qi in
      let s' = busy k qi s in
      let delay = retry_delay c (pos (qi.attempts + 1)) random in
      attempt c e random k s ≡ (
        if budget_spent c (pos (qi.attempts + 1))
        then (
          event c e k (qi.attempts + 1) error_dead_lettered ∷ [],
          with_queue s' (deadletter o s'.wq).1,
        )
        else (
          event c e k (qi.attempts + 1) error_requeued ∷ [],
          with_queue s'
              (requeue_with_options c.tuning o
                (record no_options { backoff_delay = delay })
                (s'.clock s'.calls k)
                (s'.clock (s'.calls + 1) k)
                s'.wq).1,
        ))
unfolding attempt run_task step_task busy event queued_key owned
attempt_lem c e random k s qi plain here idle =
    rw (here, attempt)
      (rw (start_ok k qi (s.clock s.calls k) s.wq here idle) (
        rw (plan_plain c qi.options.priority (pos (qi.attempts + 1)) random e plain)
          (elim (Bool-cases (budget_spent c (pos (qi.attempts + 1)))) [
            | inl spent ↦ rw spent
            | inr more ↦ rw more
          ])))

busy_twinless : (k : String) (qi : QueueItem) (s : Server) → lookup k (busy k qi s).wq.queue ≡ none
unfolding busy
busy_twinless k qi s = rw (lookup-remove k k s.wq.queue, eq_refl k)

budget_at : (c : Config) (m n : ℕ) → c.max_retry ≡ pos m → 0 < m → budget_spent c (pos n) ≡ leb m n
budget_at c m n e h = rw e (ground arith)

buried_gone :
    (k : String) (qi : QueueItem) (s : Server)
    → Gone k (with_queue (busy k qi s) (deadletter (owned k qi) (busy k qi s).wq).1)
unfolding deadletter owned
buried_gone k qi s = (busy_twinless k qi s, rw (lookup-remove k k (busy k qi s).wq.wip, eq_refl k))

pub last_attempt :
    (c : Config) (e : Err) (random : ℕ) (k : String) (s : Server) (n m : ℕ)
    → IsPlain c e
    → c.max_retry ≡ pos m
    → m ≡ suc n
    → Waits k n s
    → (outcomes (attempt c e random k s).0 ≡ (pos (suc n), error_dead_lettered) ∷ [])
      × Gone k (attempt c e random k s).1
unfolding event
last_attempt c e random k s n m plain budget h waits =
    let spent : budget_spent c (pos (waits.item.attempts + 1)) ≡ true =
      budget_at c m (waits.item.attempts + 1) budget (omega arith)
      ∙ le→leb m (waits.item.attempts + 1) (omega (arith, waits.count)) in
    rw (attempt_lem c e random k s waits.item plain waits.here waits.idle) (
      rw spent (
        ap (λ i. (pos i, error_dead_lettered) ∷ []) (omega (arith, waits.count)),
        buried_gone k waits.item s,
      ))

retried-Waits :
    (c : Config) (k : String) (qi : QueueItem) (s : Server) (delay : Duration)
    → pos 0 <ℤ delay
    → let s' = busy k qi s in
      Waits k (qi.attempts + 1) (
        with_queue s'
          (requeue_with_options c.tuning
            (owned k qi)
            (record no_options { backoff_delay = delay })
            (s'.clock s'.calls k)
            (s'.clock (s'.calls + 1) k)
            s'.wq).1)
unfolding owned
retried-Waits c k qi s delay positive =
    let s' = busy k qi s in
    let given : Options = record no_options { backoff_delay = delay } in
    let back =
      requeue_backoff_keeps_attempts c.tuning (owned k qi) given (s'.clock s'.calls k)
        (s'.clock (s'.calls + 1) k) s'.wq positive (busy_twinless k qi s) in
    record {
      item = back.0;
      here = back.1;
      idle =
          requeue_settles c.tuning (owned k qi) given (s'.clock s'.calls k)
            (s'.clock (s'.calls + 1) k) s'.wq;
      count = back.2;
    }

Waits-eq : (k : String) (a b : ℕ) (s : Server) → a ≡ b → Waits k a s → Waits k b s
Waits-eq k a b s e w = record { item = w.item; here = w.here; idle = w.idle; count = w.count ∙ e }

pub earlier_attempt :
    (c : Config) (e : Err) (random : ℕ) (k : String) (s : Server) (n m : ℕ)
    → IsPlain c e
    → c.max_retry ≡ pos m
    → suc n < m
    → pos 0 <ℤ retry_delay c (pos (suc n)) random
    → Waits k n s
    → (outcomes (attempt c e random k s).0 ≡ (pos (suc n), error_requeued) ∷ [])
      × Waits k (suc n) (attempt c e random k s).1
unfolding event
earlier_attempt c e random k s n m plain budget h positive waits =
    let count : waits.item.attempts + 1 ≡ suc n = omega (arith, waits.count) in
    let more : budget_spent c (pos (waits.item.attempts + 1)) ≡ false =
      budget_at c m (waits.item.attempts + 1) budget (omega arith)
      ∙ lt→leb m (waits.item.attempts + 1) (omega arith) in
    rw (attempt_lem c e random k s waits.item plain waits.here waits.idle) (
      rw more (
        ap (λ i. (pos i, error_requeued) ∷ []) count,
        Waits-eq k (waits.item.attempts + 1) (suc n) _ count (
            retried-Waits c k waits.item s (retry_delay c (pos (waits.item.attempts + 1)) random)
              (rw count positive)),
      ))
