-- ===== src/Agents/Suspend.antt =====
-- agents/suspend: the coordinator that parks a conversation until a person has answered
-- (coordinator.go), and the store of its questions (types.go).
pub mod Memquestions
pub mod Wake
pub mod Race
pub mod Progress
pub mod Pause
use go_driftlessaf.Base.{
  ℕ, String, Bool, true, false, ◌&&◌, ◌||◌, not, Option, none, some, List, [], ◌∷◌, if◌then◌else◌,
  ℤ, pos, leb_ℤ, ltb_ℤ, eqb_ℤ,
}
use go_driftlessaf.Clock.{Instant, Duration, zero_time, add_time}
use go_driftlessaf.Workqueue.Errors.{Err, wrapped, requeue_after_with_jitter}
use go_driftlessaf.Workqueue.Interface.{Reply, ok, err}
use go_driftlessaf.Agents.Checkpoint.{
  Envelope, Suspension, Store, validate, question_from_pending, passed, errors_is, new_error,
  is_empty, config_drift, token_mismatch,
}

pub record Question : Type 0 where
  pub id : String
  pub key : String
  pub run_id : String
  pub prompt : String
  pub asked_at : Instant

pub record Answer : Type 0 where
  pub question_id : String
  pub text : String
  pub answered_at : Instant

-- QuestionStore.
pub record QuestionStore : Type 1 where
  pub State : Type 0
  pub ask : String → Question → State → Option Err × State
  pub pending : String → State → Reply (Option Question)
  pub answer : String → State → Reply (Option Answer)
  pub consume : String → String → State → Option Err × State

-- Coordinator, without its stores and its clock; `question_of` reads the JSON of a tool's input.
pub record Coordinator : Type 0 where
  pub wake_interval : Duration
  pub jitter : Duration
  pub default_park_deadline : Duration
  pub with_backup : Option (String → Envelope → Option Err)
  pub validate_envelope : Option (Envelope → Option Err)
  pub question_of : String → Option String

-- New, for stores that are not nil: a coordinator without hooks.
unfoldable pub new : (String → Option String) → Duration → Reply Coordinator
new question_of interval =
    if leb_ℤ interval (pos 0)
    then err (new_error "suspend: WakeInterval must be > 0")
    else ok (record {
      wake_interval = interval;
      jitter = pos 0;
      default_park_deadline = pos 0;
      with_backup = none;
      validate_envelope = none;
      question_of = question_of;
    })

-- defaultParkDeadline, 14 days.
abbrev pub fourteen_days : Duration
fourteen_days = pos 1209600000000000

-- `cmp.Or(a, b)` for durations and for texts.
abbrev pub or_duration : Duration → Duration → Duration
or_duration a b = if eqb_ℤ a (pos 0) then b else a

abbrev pub or_text : String → String → String
or_text a b = if is_empty a then b else a

-- What a call reads from outside: the clock, twice in Suspend, a random number, and the random
-- bytes of the nonce, which may fail.
pub record Draws : Type 0 where
  pub now : Instant
  pub asked_at : Instant
  pub random : ℕ
  pub nonce : Reply String

-- The envelope that Suspend parks: the key and the deadline are stamped.
unfoldable pub stamp : Coordinator → String → Instant → Envelope → Envelope
stamp c key now e = record e {
  reconciler_key = key;
  deadline =
      if eqb_ℤ e.deadline zero_time
      then add_time now (or_duration c.default_park_deadline fourteen_days)
      else e.deadline;
}

backed_up : Option (String → Envelope → Option Err) → String → Envelope → Option Err
backed_up none key e = none
backed_up (some f) key e = f key e

-- envelopeDead.
drifted : Option (Envelope → Option Err) → Envelope → Bool
drifted none e = false
drifted (some f) e = elim (f e) [ none ↦ false | some x ↦ errors_is config_drift x ]

unfoldable pub envelope_dead : Coordinator → Instant → Envelope → Bool
unfolding drifted
envelope_dead c now e = passed e.deadline now || drifted c.validate_envelope e

pub record World (S : Store) (Q : QuestionStore) : Type 0 where
  pub store : Store.State S
  pub questions : QuestionStore.State Q

module _ (S : Store) (Q : QuestionStore) (c : Coordinator) where
  abbrev Both : Type 0
  Both = World S Q

  asked : Suspension → Draws → String → Envelope → Both → Reply String → Option Err × Both
  asked s d key e w (err x) = (some (wrapped "suspend: mint question nonce" x), w)
  asked s d key e w (ok nonce) =
      let q : Question = record {
        id = nonce;
        key = key;
        run_id = e.run_id;
        prompt = or_text s.question (question_from_pending c.question_of e.pending_tool_calls);
        asked_at = d.asked_at;
      } in
      let (failure, qs) = Q.ask key q w.questions in
      let w' = record w { questions = qs } in
      elim failure [
        | some x ↦ (some (wrapped "suspend: post question" x), w')
        | none ↦ (requeue_after_with_jitter c.wake_interval c.jitter d.random, w')
      ]

  saved :
      Suspension → Draws → String → Envelope → Option Err × Store.State S → Both → Option Err × Both
  unfolding asked backed_up
  saved s d key e (some x, st) w =
      (some (wrapped "suspend: save envelope" x), record w { store = st })
  saved s d key e (none, st) w = elim (backed_up c.with_backup key e) [
    | some x ↦ (some (wrapped "suspend: backup hook" x), record w { store = st })
    | none ↦ asked s d key e (record w { store = st }) d.nonce
  ]

  parked : Suspension → Draws → String → Envelope → Option Err → Both → Option Err × Both
  unfolding saved
  parked s d key e (some x) w = (some (wrapped "suspend: envelope" x), w)
  parked s d key e none w = saved s d key e (S.save key e w.store) w

  -- Suspend. The requeue that it returns is an error that the dispatcher reads as success.
  unfoldable pub suspend : String → Option Suspension → Draws → Both → Option Err × Both
  unfolding parked
  suspend key none d w =
      if leb_ℤ c.wake_interval (pos 0)
      then (some (new_error "suspend: WakeInterval must be > 0"), w)
      else if ltb_ℤ c.default_park_deadline (pos 0)
      then (some (new_error "suspend: DefaultParkDeadline must be >= 0"), w)
      else (some (new_error "suspend: nil suspension"), w)
  suspend key (some s) d w =
      if leb_ℤ c.wake_interval (pos 0)
      then (some (new_error "suspend: WakeInterval must be > 0"), w)
      else if ltb_ℤ c.default_park_deadline (pos 0)
      then (some (new_error "suspend: DefaultParkDeadline must be >= 0"), w)
      else let e = stamp c key d.now s.envelope in parked s d key e (validate e) w
