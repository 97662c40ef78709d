-- ===== src/Agents/Retry/Requeue.antt =====
-- How an error of RequeueIfRetryable in agents/executor/retry/retry.go is taken by the dispatcher, and
-- the backoff of its retries.
use Prim.Native.Nat.{min}
use go_driftlessaf.Base.{
  ap, ℕ, ◌*◌, ◌^◌, ◌<◌, ◌≡◌, refl, Bool, true, false, none, [], ◌∷◌, arith, ℤ, pos, two63, ◌⊎◌, inl,
  inr, Bool-cases, to_int64, to_int64_small,
}
use go_driftlessaf.Clock.{times_int64}
use go_driftlessaf.Workqueue.Options.{no_options}
use go_driftlessaf.Workqueue.Errors.{
  Err, is_infrastructure_error, infrastructure_causes, cause, end, present, mark_infrastructure,
  errors_as,
}
use go_driftlessaf.Workqueue.Errors.Markers.{mark_infrastructure_transparent}
use go_driftlessaf.Workqueue.Policy.{Config, delayed, plan}
use go_driftlessaf.Agents.Retry.{RetryConfig, requeue_if_retryable, llm_backoff_delay, backoff}

-- A retryable API error becomes a requeue after five minutes that any later event may undercut: the
-- dispatcher never dead-letters it, whatever the attempts; it counts as infrastructure, and the API
-- error is kept as its cause. Other errors become nothing.
pub requeue_if_retryable_delays :
    (c : Config) (is_retryable : Err → Bool) (e : Err) (priority attempts : ℤ) (random : ℕ)
    → let r = requeue_if_retryable is_retryable e in
      ((is_retryable e ≡ false) × (r ≡ none))
      ⊎ ((is_retryable e ≡ true)
          × (plan c priority attempts random r
              ≡ delayed (record no_options { priority = priority; delay = llm_backoff_delay }))
          × (is_infrastructure_error c.grpc r ≡ true)
          × (infrastructure_causes r ≡ e ∷ []))
unfolding requeue_if_retryable plan mark_infrastructure errors_as
requeue_if_retryable_delays c is_retryable e priority attempts random =
    let (requeue, infrastructure, causes) =
      mark_infrastructure_transparent c.grpc [] llm_backoff_delay false (cause e end) in
    elim (Bool-cases (is_retryable e)) [
      | inl retryable ↦ rw retryable (inr (refl, refl, infrastructure, unfold present in causes))
      | inr not_retryable ↦ rw not_retryable (inl (refl, refl))
    ]

shifted : (base i : ℕ) → times_int64 (2 ^ i) (pos base) ≡ to_int64 (base * 2 ^ i)
unfolding times_int64
shifted base i = ap to_int64 (omega arith)

-- Below the range of int64 the backoff is the base doubled for each earlier attempt, cut at the
-- maximum.
pub backoff-min :
    (c : RetryConfig) (base most i : ℕ)
    → c.base_backoff ≡ pos base
    → c.max_backoff ≡ pos most
    → base * 2 ^ i < two63
    → backoff c i ≡ pos (min (base * 2 ^ i) most)
unfolding backoff
backoff-min c base most i b m small =
    rw (b, m, shifted base i, to_int64_small (base * 2 ^ i) small) (ground arith)
