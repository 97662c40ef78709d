-- ===== src/Agents/Suspend/Race.antt =====
-- Concurrent calls of Wake in agents/suspend/coordinator.go, over the store of envelopes in memory.
use go_driftlessaf.Base.{◌≡◌, String, Option, none, some, List, arith, ℤ, Bool, true, false}
use go_driftlessaf.Clock.{Instant}
use go_driftlessaf.Workqueue.Errors.{other, errors_as}
use go_driftlessaf.Workqueue.Interface.{Reply}
use go_driftlessaf.Agents.Checkpoint.{Envelope, errors_is, token_mismatch}
use go_driftlessaf.Agents.Checkpoint.Memstore.{
  memstore, Memstore, Op, new, run_ops, delete, delete_once,
}
use go_driftlessaf.Agents.Suspend.{Answer, Question, QuestionStore, Coordinator, World}
use go_driftlessaf.Agents.Suspend.Wake.{
  Waker, Decision, fresh, rearm, claiming, consuming, sweeping_with, woken, step_wake, claimed,
  swept_after,
}

-- The two kinds of wakers that are about to delete an envelope by its token.
pub data Holder : Type 0 where
  claimant : Envelope → Answer → Holder
  sweeper : Reply (Option Question) → Holder

abbrev pub holder_task : ℤ → Holder → Waker
holder_task token (claimant e a) = claiming e token a
holder_task token (sweeper q) = sweeping_with token q

-- How a waker leaves that finds the envelope gone.
abbrev pub gives_way : Holder → Decision
gives_way (claimant e a) = rearm
gives_way (sweeper q) = fresh

abbrev pub is_consuming : Waker → Bool
is_consuming (consuming e token a) = true
is_consuming _ = false

module _ (Q : QuestionStore) (c : Coordinator) (key : String) (token : ℤ) where
  abbrev pub world : Memstore → QuestionStore.State Q → World memstore Q
  world st qs = record { store = st; questions = qs }

  claim_won :
      (e : Envelope) (a : Answer) (now : Instant) (st : Memstore) (qs : QuestionStore.State Q)
      → is_consuming (step_wake memstore Q c key now (claiming e token a) (world st qs)).0 ≡ true
      → (delete key token st).0 ≡ none
  unfolding step_wake claimed
  claim_won e a now st qs h = ground arith

  holder_late :
      (x : Holder) (now : Instant) (st : Memstore) (qs : QuestionStore.State Q)
      → delete key token st ≡ (some (other token_mismatch), st)
      → step_wake memstore Q c key now (holder_task token x) (world st qs)
        ≡ (woken (gives_way x) none, world st qs)
  unfolding step_wake claimed swept_after errors_is errors_as
  holder_late (claimant e a) now st qs h = rw h
  holder_late (sweeper q) now st qs h = rw h

  -- A parked envelope is resumed at most once. Once a waker has claimed it, every other waker that
  -- loaded the same token gives way, whatever was saved and deleted in between and whatever became of
  -- the questions: one with the answer rearms, one that sweeps a dead envelope starts afresh, and
  -- neither touches the stores.
  pub one_waker_claims :
      (earlier between : List Op) (e : Envelope) (a : Answer) (x : Holder) (now later : Instant)
      (qs qs' : QuestionStore.State Q)
      → is_consuming
          (step_wake memstore Q c key now (claiming e token a) (world (run_ops earlier new) qs)).0
        ≡ true
      → let st =
          run_ops between
            (step_wake memstore Q c key now
              (claiming e token a)
              (world (run_ops earlier new) qs)).1.store in
        step_wake memstore Q c key later (holder_task token x) (world st qs')
        ≡ (woken (gives_way x) none, world st qs')
  one_waker_claims earlier between e a x now later qs qs' won = holder_late x later _ qs' (
      unfold step_wake in
      delete_once earlier between key token (claim_won e a now (run_ops earlier new) qs won))
