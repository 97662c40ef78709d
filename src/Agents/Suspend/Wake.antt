-- ===== src/Agents/Suspend/Wake.antt =====
-- Wake of agents/suspend/coordinator.go: a call is a task that takes one step for each call on the two
-- stores; between its steps other processes may take theirs.
use go_driftlessaf.Base.{ℕ, String, Option, none, some, if◌then◌else◌, ℤ}
use go_driftlessaf.Clock.{Instant}
use go_driftlessaf.Workqueue.Errors.{Err, wrapped}
use go_driftlessaf.Workqueue.Interface.{Reply, ok, err}
use go_driftlessaf.Agents.Checkpoint.{Envelope, Store, errors_is, token_mismatch}
use go_driftlessaf.Agents.Suspend.{
  Question, Answer, QuestionStore, Coordinator, World, envelope_dead,
}

pub data Decision : Type 0 where
  fresh rearm : Decision
  resume : Envelope → Answer → ℤ → Decision

-- WakeDecision.String.
unfoldable pub decision_string : Decision → String
decision_string fresh = "WakeFresh"
decision_string rearm = "WakeRearm"
decision_string (resume e a token) = "WakeResume"

-- A call of Wake between two calls on the stores.
pub data Waker : Type 0 where
  loading : Waker
  sweeping : ℤ → Waker
  sweeping_with : ℤ → Reply (Option Question) → Waker
  sweeping_question : String → Waker
  asking : Envelope → ℤ → Waker
  claiming : Envelope → ℤ → Answer → Waker
  consuming : Envelope → ℤ → Answer → Waker
  woken : Decision → Option Err → Waker

unfoldable pub loaded : Coordinator → Instant → Reply (Option (Envelope × ℤ)) → Waker
loaded c now (err e) = woken fresh (some (wrapped "wake: load envelope" e))
loaded c now (ok none) = woken fresh none
loaded c now (ok (some (e, token))) =
    if envelope_dead c now e then sweeping token else asking e token

unfoldable pub swept : Reply (Option Question) → Waker
swept (ok (some q)) = sweeping_question q.id
swept _ = woken fresh none

-- The delete of a dead envelope; `mismatch` tells ErrTokenMismatch from other errors.
unfoldable pub swept_after : Reply (Option Question) → Option Err → Waker
unfolding swept
swept_after q none = swept q
swept_after q (some e) =
    if errors_is token_mismatch e
    then woken fresh none
    else woken fresh (some (wrapped "wake: delete dead envelope" e))

unfoldable pub answered : Envelope → ℤ → Reply (Option Answer) → Waker
answered e token (err x) = woken rearm (some (wrapped "wake: read answer" x))
answered e token (ok none) = woken rearm none
answered e token (ok (some a)) = claiming e token a

unfoldable pub claimed : Envelope → ℤ → Answer → Option Err → Waker
claimed e token a none = consuming e token a
claimed e token a (some x) =
    if errors_is token_mismatch x
    then woken rearm none
    else woken rearm (some (wrapped "wake: claim envelope" x))

module _ (S : Store) (Q : QuestionStore) (c : Coordinator) where
  -- One step of Wake. A failure to consume a question is only logged.
  unfoldable pub step_wake : String → Instant → Waker → World S Q → Waker × World S Q
  unfolding loaded swept_after answered claimed
  step_wake key now loading w = (loaded c now (S.load key w.store), w)
  step_wake key now (sweeping token) w = (sweeping_with token (Q.pending key w.questions), w)
  step_wake key now (sweeping_with token q) w =
      let (failure, st) = S.delete key token w.store in
      (swept_after q failure, record w { store = st })
  step_wake key now (sweeping_question id) w =
      (woken fresh none, record w { questions = (Q.consume key id w.questions).1 })
  step_wake key now (asking e token) w = (answered e token (Q.answer key w.questions), w)
  step_wake key now (claiming e token a) w =
      let (failure, st) = S.delete key token w.store in
      (claimed e token a failure, record w { store = st })
  step_wake key now (consuming e token a) w = (
    woken (resume e a token) none,
    record w { questions = (Q.consume key a.question_id w.questions).1 },
  )
  step_wake key now (woken d x) w = (woken d x, w)

  -- Steps with nothing between them.
  unfoldable pub run_wake : String → Instant → ℕ → Waker → World S Q → Waker × World S Q
  run_wake key now ℕ.zero t w = (t, w)
  run_wake key now (ℕ.suc n) t w = let (t', w') = step_wake key now t w in run_wake key now n t' w'

  -- Wake takes at most four steps.
  unfoldable pub wake : String → Instant → World S Q → Waker × World S Q
  wake key now w = run_wake key now 4 loading w
