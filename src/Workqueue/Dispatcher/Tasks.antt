-- ===== src/Workqueue/Dispatcher/Tasks.antt =====
-- What a goroutine of workqueue/dispatcher/dispatcher.go does with a key, step by step.
use go_driftlessaf.Base.{
  ℕ, suc, ◌+◌, ◌≤◌, ◌≡◌, ◌↔◌, refl, String, Bool, true, false, Option, none, some, List, [], ◌∷◌,
  arith, inl, inr, ◌⊎◌, length, ℤ, pos, ◌≤ℤ◌, ◌<ℤ◌,
}
use go_driftlessaf.Workqueue.Errors.{Err, QueueKey, get_requeue_options, get_queue_keys}
use go_driftlessaf.Workqueue.Interface.{Backend, Reply, ok, err}
use go_driftlessaf.Workqueue.Policy.{
  ErrorContext, Config, Input, Plan, delayed, queued_first, buried, completed, plan,
}
use go_driftlessaf.Workqueue.Dispatcher.{
  queue_options, Task, orphaned, launched, working, settling, queueing, giving_back, finished,
  step_task, run_task, settle, started_task, queued_task, close,
}

-- A key is dead-lettered exactly for a plain failure once the attempts have used up a retry budget
-- that is set: never for a requeue or for keys to queue, however many the attempts.
pub plan_buried_iff :
    (c : Config) (priority attempts : ℤ) (random : ℕ) (r : Option Err) (e : Err)
    → (plan c priority attempts random r ≡ buried e) ↔ (
        (get_requeue_options r ≡ none)
        × (get_queue_keys r ≡ [])
        × (r ≡ some e)
        × (pos 0 <ℤ c.max_retry)
        × (c.max_retry ≤ℤ attempts))
unfolding plan
plan_buried_iff c priority attempts random r e = ((λ h. ground arith), λ h. ground arith)

module _ (b : Backend) (c : Config) where
  -- The steps that a task still needs, once the callback has returned.
  abbrev plan_steps : Plan → ℕ
  plan_steps (queued_first ks) = length ks + 3
  plan_steps _ = 1

  abbrev steps_left : Task b c → ℕ
  steps_left (orphaned x) = 1
  steps_left (launched q) = 0
  steps_left (working o) = 0
  steps_left (settling o p) = plan_steps p
  steps_left (queueing o ks) = length ks + 2
  steps_left (giving_back o) = 1
  steps_left (finished e) = 0

  abbrev past_callback : Task b c → Bool
  past_callback (launched q) = false
  past_callback (working o) = false
  past_callback _ = true

  abbrev pub is_finished : Task b c → Bool
  is_finished (finished e) = true
  is_finished _ = false

  -- One step took a task closer to its end, and not back before the callback.
  abbrev Advances : ℕ → Task b c → Type 0
  Advances n t = (suc (steps_left t) ≤ n) × (past_callback t ≡ true)

  close-Advances :
      (what : String) (events : List ErrorContext) (r : Option Err × Backend.State b)
      → Advances 1 (close b c what events r).0
  unfolding close
  close-Advances what events (none, s) = (omega arith, refl)
  close-Advances what events (some e, s) = (omega arith, refl)

  settle-Advances :
      (p : Plan) (o : Backend.Owned b) (s : Backend.State b)
      → Advances (plan_steps p) (settle b c p o s).0
  unfolding settle
  settle-Advances (delayed opts) o s = close-Advances _ _ _
  settle-Advances (queued_first ks) o s = (omega arith, refl)
  settle-Advances _ o s = close-Advances _ _ _

  queued-Advances :
      (o : Backend.Owned b) (ks : List QueueKey) (r : Option Err × Backend.State b)
      → Advances (length ks + 3) (queued_task b c o ks r).0
  unfolding queued_task
  queued-Advances o ks (none, s) = (omega arith, refl)
  queued-Advances o ks (some e, s) = (omega arith, refl)

  step_task-Advances :
      (i : Input) (t : Task b c) (s : Backend.State b)
      → past_callback t ≡ true
      → (is_finished t ≡ true) ⊎ Advances (steps_left t) (step_task b c i t s).0
  unfolding step_task
  step_task-Advances i (orphaned x) s h = inr (omega arith, refl)
  step_task-Advances i (launched q) s h = cc
  step_task-Advances i (working o) s h = cc
  step_task-Advances i (settling o p) s h = inr (settle-Advances p o s)
  step_task-Advances i (queueing o []) s h =
      let (fewer, past) = settle-Advances completed o s in inr (omega (arith, fewer), past)
  step_task-Advances i (queueing o (k ∷ ks)) s h =
      let (fewer, past) = queued-Advances o ks (b.enqueue k.key (queue_options i.now k) s) in
      inr (omega (arith, fewer), past)
  step_task-Advances i (giving_back o) s h = inr (close-Advances _ _ _)
  step_task-Advances i (finished e) s h = inl refl

  finished_stays :
      (is : List Input) (t : Task b c) (s : Backend.State b)
      → is_finished t ≡ true
      → is_finished (run_task b c is t s).0 ≡ true
  unfolding run_task step_task
  finished_stays [] t s h = h
  finished_stays (i ∷ is) (finished e) s h = finished_stays is (finished e) s refl
  finished_stays (i ∷ is) _ s h = cc

  nothing_left : (t : Task b c) → past_callback t ≡ true → steps_left t ≡ 0 → is_finished t ≡ true
  nothing_left (finished e) p h = refl
  nothing_left (launched q) p h = cc
  nothing_left (working o) p h = cc
  nothing_left (settling o (queued_first ks)) p h = absurd (omega arith)
  nothing_left (settling o _) p h = absurd (omega arith)
  nothing_left _ p h = absurd (omega arith)

  run_task-finishes :
      (is : List Input) (t : Task b c) (s : Backend.State b)
      → past_callback t ≡ true
      → steps_left t ≤ length is
      → is_finished (run_task b c is t s).0 ≡ true
  unfolding run_task
  run_task-finishes [] t s p h = nothing_left t p (omega arith)
  run_task-finishes (i ∷ is) t s p h = elim (step_task-Advances i t s p) [
    | inl done ↦ finished_stays (i ∷ is) t s done
    | inr (fewer, past) ↦
        run_task-finishes is (step_task b c i t s).0 (step_task b c i t s).1 past (omega arith)
  ]

  plan_steps_le :
      (priority attempts : ℤ) (i : Input)
      → plan_steps (plan c priority attempts i.random i.reply) ≤ length (get_queue_keys i.reply) + 3
  unfolding plan
  plan_steps_le priority attempts i = ground arith

  -- A launched key's goroutine ends, whatever the queue answers and whatever the callback returns:
  -- after the start and the callback it needs one step for each key to queue, and three more.
  pub launched_finishes :
      (i j : Input) (is : List Input) (q : Backend.Waiting b) (s : Backend.State b)
      → length (get_queue_keys j.reply) + 3 ≤ length is
      → is_finished (run_task b c (i ∷ j ∷ is) (launched q) s).0 ≡ true
  unfolding run_task step_task
  launched_finishes i j is q s h = after (b.start q s)
    where
      after :
          (r : Reply (Backend.Owned b) × Backend.State b)
          → is_finished (run_task b c (j ∷ is) (started_task b c r).0 (started_task b c r).1).0
            ≡ true
      after (ok o, s') =
          run_task-finishes is
            (settling o (plan c (b.owned_priority o) (b.get_attempts o) j.random j.reply)) s' refl
            (omega (arith, plan_steps_le (b.owned_priority o) (b.get_attempts o) j))
      after (err e, s') = finished_stays is (finished none) s' refl
