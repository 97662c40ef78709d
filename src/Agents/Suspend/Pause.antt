-- ===== src/Agents/Suspend/Pause.antt =====
-- A pause from Suspend to Wake in agents/suspend/coordinator.go, over the two stores in memory.
use go_driftlessaf.Base.{
  ◌+◌, ◌≡◌, refl, ap, ◌∙◌, String, false, Option, none, some, ℤ, pos, leb_ℤ, ltb_ℤ,
}
use go_driftlessaf.Clock.{Instant}
use go_driftlessaf.Workqueue.Errors.{Err, requeue_after_with_jitter}
use go_driftlessaf.Workqueue.Interface.{ok}
use go_driftlessaf.Agents.Checkpoint.{Envelope, Suspension, validate, question_from_pending}
use go_driftlessaf.Agents.Checkpoint.Memstore.{
  memstore, save, load, delete, load-save, delete-save, load-delete,
}
use go_driftlessaf.Agents.Suspend.Memquestions.{
  memquestions, ask, answer_to, consume, provide, answer_to-ask, answer_to-provide,
}
use go_driftlessaf.Agents.Suspend.{
  Question, Answer, Coordinator, Draws, World, stamp, envelope_dead, suspend, parked, saved, asked,
  backed_up, or_text,
}
use go_driftlessaf.Agents.Suspend.Wake.{
  Waker, resume, fresh, rearm, woken, wake, run_wake, step_wake, loaded, answered, claimed,
}

abbrev pub Stores : Type 0
Stores = World memstore memquestions

module _ (c : Coordinator) (key : String) where
  abbrev pub wake_at : Instant → Stores → Waker × Stores
  wake_at now w = wake memstore memquestions c key now w

  wake_nothing :
      (now : Instant) (w : Stores) → load key w.store ≡ none → wake_at now w ≡ (woken fresh none, w)
  unfolding wake run_wake step_wake loaded
  wake_nothing now w h = rw h refl

  wake_unanswered :
      (now : Instant) (w : Stores) (e : Envelope) (token : ℤ)
      → load key w.store ≡ some (e, token)
      → envelope_dead c now e ≡ false
      → answer_to key w.questions ≡ none
      → wake_at now w ≡ (woken rearm none, w)
  unfolding wake run_wake step_wake loaded answered
  wake_unanswered now w e token here live silent = rw (here, live, silent) refl

  wake_answered :
      (now : Instant) (w : Stores) (e : Envelope) (token : ℤ) (a : Answer)
      → load key w.store ≡ some (e, token)
      → envelope_dead c now e ≡ false
      → answer_to key w.questions ≡ some a
      → (delete key token w.store).0 ≡ none
      → wake_at now w ≡ (
        woken (resume e a token) none,
        record {
          store = (delete key token w.store).1;
          questions = consume key a.question_id w.questions;
        },
      )
  unfolding wake run_wake step_wake loaded answered claimed
  wake_answered now w e token a here live said won = rw (here, live, said, won) refl

module _ (c : Coordinator) (key : String) (s : Suspension) (d : Draws) (nonce : String)
    (w : Stores) where
  abbrev pub parked_envelope : Envelope
  parked_envelope = stamp c key d.now s.envelope

  abbrev pub token : ℤ
  token = pos (w.store.gen + 1)

  abbrev question : Question
  question = record {
    id = nonce;
    key = key;
    run_id = parked_envelope.run_id;
    prompt =
        or_text s.question (question_from_pending c.question_of parked_envelope.pending_tool_calls);
    asked_at = d.asked_at;
  }

  abbrev pub after_suspend : Stores
  after_suspend = (suspend memstore memquestions c key (some s) d w).1

  abbrev waiting : Stores
  waiting = record {
    store = save key parked_envelope w.store;
    questions = ask key question w.questions;
  }

  abbrev pub reply : String → Answer
  reply text = record { question_id = nonce; text = text; answered_at = d.asked_at }

  -- A person answers.
  abbrev pub after_reply : String → Stores → Stores
  after_reply text v = record v { questions = (provide key text v.questions).1 }

  suspend_parks :
      leb_ℤ c.wake_interval (pos 0) ≡ false
      → ltb_ℤ c.default_park_deadline (pos 0) ≡ false
      → c.with_backup ≡ none
      → d.nonce ≡ ok nonce
      → validate parked_envelope ≡ none
      → suspend memstore memquestions c key (some s) d w
        ≡ (requeue_after_with_jitter c.wake_interval c.jitter d.random, waiting)
  unfolding suspend parked saved asked backed_up
  suspend_parks interval positive no_backup drawn valid =
      rw (interval, positive, valid, no_backup, drawn) refl

  wakes_from_waiting :
      (text : String) (early late last : Instant) (v : Stores)
      → v ≡ waiting
      → envelope_dead c early parked_envelope ≡ false
      → envelope_dead c late parked_envelope ≡ false
      → (wake_at c key early v ≡ (woken rearm none, v))
        × ((wake_at c key late (after_reply text v)).0
            ≡ woken (resume parked_envelope (reply text) token) none)
        × ((wake_at c key last (wake_at c key late (after_reply text v)).1).0 ≡ woken fresh none)
  wakes_from_waiting text early late last v same live live' =
      let here = load-save key parked_envelope w.store in
      let won = delete-save key parked_envelope w.store in
      let resumed =
        wake_answered c key late (after_reply text waiting) parked_envelope token (reply text) here
          live' (answer_to-provide key text question w.questions) won in
      let silent = answer_to-ask key question w.questions in
      let gone = load-delete key token waiting.store won in
      rw same (
        wake_unanswered c key early waiting parked_envelope token here live silent,
        ap (λ (p : Waker × Stores). p.0) resumed,
        ap (λ (p : Waker × Stores). (wake_at c key last p.1).0) resumed
            ∙ ap (λ (p : Waker × Stores). p.0) (wake_nothing c key last _ gone),
      )

  -- A pause that is answered. Suspend parks the envelope and asks the question, and returns a requeue
  -- with the wake interval. While nobody has answered, Wake rearms and changes nothing. Once a person
  -- has, Wake hands back the envelope as it was parked together with the answer, and the next Wake
  -- starts afresh: each before the deadline and without a drift of the configuration.
  pub suspend_wake :
      (text : String) (early late last : Instant)
      → leb_ℤ c.wake_interval (pos 0) ≡ false
      → ltb_ℤ c.default_park_deadline (pos 0) ≡ false
      → c.with_backup ≡ none
      → d.nonce ≡ ok nonce
      → validate parked_envelope ≡ none
      → envelope_dead c early parked_envelope ≡ false
      → envelope_dead c late parked_envelope ≡ false
      → let answered = after_reply text after_suspend in
        ((suspend memstore memquestions c key (some s) d w).0
          ≡ requeue_after_with_jitter c.wake_interval c.jitter d.random)
        × (wake_at c key early after_suspend ≡ (woken rearm none, after_suspend))
        × ((wake_at c key late answered).0 ≡ woken (resume parked_envelope (reply text) token) none)
        × ((wake_at c key last (wake_at c key late answered).1).0 ≡ woken fresh none)
  suspend_wake text early late last interval positive no_backup drawn valid live live' =
      let parks = suspend_parks interval positive no_backup drawn valid in
      let (unanswered, resumed, over) =
        wakes_from_waiting text early late last after_suspend
          (ap (λ (p : Option Err × Stores). p.1) parks) live live' in
      (ap (λ (p : Option Err × Stores). p.0) parks, unanswered, resumed, over)
