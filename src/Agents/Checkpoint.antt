-- ===== src/Agents/Checkpoint.antt =====
-- agents/checkpoint: the envelope of a suspended conversation (types.go), the two gates it passes
-- (lifecycle.go) and the store it is parked in (store.go). Raw JSON is a text, in which an empty text
-- stands for no bytes; a copy of an envelope is the envelope.
pub mod Memstore
pub mod Jsonlstore
pub mod Gate
pub mod Answer
pub mod Cap
pub mod Frame
use go_driftlessaf.Base.{
  ℕ, String, Bool, true, false, ◌&&◌, ◌||◌, not, Option, none, some, List, [], ◌∷◌, if◌then◌else◌,
  is_some, ◌==◌, str_eq, ℤ, pos, leb_ℤ, eqb_ℤ, max_ℤ, ◌-ℤ◌, ◌+ℤ◌,
}
use go_driftlessaf.Clock.{Instant, before, zero_time}
use go_driftlessaf.Workqueue.Errors.{Err, other, wrapped, errors_as}
use go_driftlessaf.Workqueue.Interface.{Reply}

-- The sentinel errors ErrConfigDrift and ErrTokenMismatch, and errors.Is for a sentinel.
abbrev pub config_drift : ℕ
config_drift = 1

abbrev pub token_mismatch : ℕ
token_mismatch = 2

abbrev as_sentinel : ℕ → Err → Option ℕ
as_sentinel n (other m) = if m == n then some m else none
as_sentinel n _ = none

unfoldable pub errors_is : ℕ → Err → Bool
errors_is n e = is_some (errors_as (as_sentinel n) e)

-- errors.New with a text.
abbrev pub new_error : String → Err
new_error s = wrapped s (other 0)

abbrev pub drift : String → Err
drift s = wrapped s (other config_drift)

pub record PendingToolCall : Type 0 where
  pub id : String
  pub name : String
  pub input_json : String

abbrev pub envelope_version : ℤ
envelope_version = pos 1

pub record Envelope : Type 0 where
  pub version : ℤ
  pub provider : String
  pub model : String
  pub sdk_version : String
  pub config_digest : String
  pub reconciler_key : String
  pub run_id : String
  pub turn : ℤ
  pub remaining_turns : ℤ
  pub reason : String
  pub pending_tool_calls : List PendingToolCall
  pub provider_state : String
  pub loop_state : String
  pub state_ref : String
  pub trace_id : String
  pub deadline : Instant

abbrev pub is_empty : String → Bool
is_empty s = str_eq s ""

pub record Suspension : Type 0 where
  pub envelope : Envelope
  pub question : String

-- QuestionFromPending; `question_of` is the text at "question" of the JSON input, if it has one.
pub question_from_pending : (String → Option String) → List PendingToolCall → String
question_from_pending question_of [] = ""
question_from_pending question_of (pc ∷ calls) =
    let rest = question_from_pending question_of calls in
    elim (question_of pc.input_json) [ none ↦ rest | some q ↦ if is_empty q then rest else q ]

-- NewAskAFriendSuspension.
unfoldable pub new_ask_a_friend_suspension :
    (String → Option String)
    → (provider model config_digest : String) → (turn max_turns : ℤ) → PendingToolCall
    → (provider_state loop_state trace_id : String) → Suspension
new_ask_a_friend_suspension question_of provider model config_digest turn max_turns call
      provider_state loop_state trace_id =
    record {
      envelope = record {
        version = envelope_version;
        provider = provider;
        model = model;
        sdk_version = "";
        config_digest = config_digest;
        reconciler_key = "";
        run_id = "";
        turn = turn;
        remaining_turns = max_ℤ (max_turns -ℤ (turn +ℤ pos 1)) (pos 0);
        reason = "awaiting answer";
        pending_tool_calls = call ∷ [];
        provider_state = provider_state;
        loop_state = loop_state;
        state_ref = "";
        trace_id = trace_id;
        deadline = zero_time;
      };
      question = question_from_pending question_of (call ∷ []);
    }

unnamed_call : List PendingToolCall → Option Err
unnamed_call [] = none
unnamed_call (pc ∷ calls) =
    let rest = unnamed_call calls in
    if is_empty pc.id
    then some (new_error "checkpoint: pending tool call has an empty ID")
    else rest

no_calls : List PendingToolCall → Bool
no_calls [] = true
no_calls (pc ∷ calls) = false

-- Validate, the gate before an envelope is parked.
unfoldable pub validate : Envelope → Option Err
unfolding unnamed_call no_calls
validate e =
    if not (eqb_ℤ e.version envelope_version)
    then some (new_error "checkpoint: envelope version")
    else if is_empty e.provider_state
    then some (new_error "checkpoint: envelope has no provider state")
    else if is_empty e.config_digest
    then some (new_error "checkpoint: envelope has no config digest")
    else if leb_ℤ e.remaining_turns (pos 0)
    then some (new_error "checkpoint: envelope has no remaining turn budget")
    else if no_calls e.pending_tool_calls
    then some (new_error "checkpoint: envelope has no pending tool calls")
    else unnamed_call e.pending_tool_calls

-- `!t.IsZero() && now.After(t)`
abbrev pub passed : Instant → Instant → Bool
passed deadline now = not (eqb_ℤ deadline zero_time) && before deadline now

-- ValidateForResume, the gate before an envelope is resumed.
unfoldable pub validate_for_resume : Envelope → String → String → String → Instant → Option Err
validate_for_resume e provider model live_digest now =
    if not (eqb_ℤ e.version envelope_version)
    then some (drift "envelope version")
    else if not (str_eq e.provider provider)
    then some (drift "envelope provider")
    else if not (str_eq e.model model)
    then some (drift "envelope model")
    else if is_empty e.config_digest || is_empty live_digest
    then some (drift "config digest missing")
    else if not (str_eq e.config_digest live_digest)
    then some (drift "envelope config digest")
    else if leb_ℤ e.remaining_turns (pos 0)
    then some (new_error "checkpoint: envelope has no remaining turn budget")
    else if passed e.deadline now
    then some (new_error "checkpoint: envelope deadline passed")
    else none

-- Store, with the token of a loaded envelope as its generation.
pub record Store : Type 1 where
  pub State : Type 0
  pub save : String → Envelope → State → Option Err × State
  pub load : String → State → Reply (Option (Envelope × ℤ))
  pub delete : String → ℤ → State → Option Err × State
