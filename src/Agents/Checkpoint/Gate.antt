-- ===== src/Agents/Checkpoint/Gate.antt =====
-- The two gates of agents/checkpoint/lifecycle.go: what may be parked, and what may be resumed.
use go_driftlessaf.Base.{
  ◌≡◌, ◌↔◌, String, false, Option, none, arith, eq_iff, ℤ, pos, ◌-ℤ◌, ◌+ℤ◌, ◌<ℤ◌,
}
use go_driftlessaf.Clock.{Instant}
use go_driftlessaf.Agents.Checkpoint.{
  Envelope, PendingToolCall, is_empty, validate, validate_for_resume, passed,
  new_ask_a_friend_suspension,
}

-- An envelope that may be parked passes the gate of an executor exactly if the provider, the model
-- and the configuration digest are the executor's and its deadline, if it has one, has not passed:
-- the schema version, the turn budget and the presence of a digest are settled when it is parked.
pub validate-resume_iff :
    (e : Envelope) (provider model live_digest : String) (now : Instant)
    → validate e ≡ none
    → (validate_for_resume e provider model live_digest now ≡ none) ↔ (
        (e.provider ≡ provider)
        × (e.model ≡ model)
        × (e.config_digest ≡ live_digest)
        × (passed e.deadline now ≡ false))
unfolding validate validate_for_resume
validate-resume_iff e provider model live_digest now valid = (
  (λ h. ground (
    arith,
    eq_iff e.provider provider,
    eq_iff e.model model,
    eq_iff e.config_digest live_digest,
  )),
  λ h.
      ground (
        arith,
        eq_iff e.provider provider,
        eq_iff e.model model,
        eq_iff e.config_digest live_digest,
      ),
)

-- A suspension that an executor makes may be parked exactly if a turn is left after the one it fired
-- in, and the conversation, the digest and the identifier of the call are there.
pub ask_a_friend_parks_iff :
    (question_of : String → Option String) (provider model digest : String) (turn max_turns : ℤ)
    (call : PendingToolCall) (provider_state loop_state trace_id : String)
    → (validate
          (new_ask_a_friend_suspension question_of provider model digest turn max_turns call
            provider_state loop_state trace_id).envelope
        ≡ none)
      ↔ ((turn +ℤ pos 1 <ℤ max_turns)
          × (is_empty provider_state ≡ false)
          × (is_empty digest ≡ false)
          × (is_empty call.id ≡ false))
unfolding validate new_ask_a_friend_suspension ◌-ℤ◌ ◌+ℤ◌
ask_a_friend_parks_iff question_of provider model digest turn max_turns call provider_state
      loop_state trace_id =
    ((λ h. ground arith), λ h. ground arith)
