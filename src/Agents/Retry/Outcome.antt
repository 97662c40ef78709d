-- ===== src/Agents/Retry/Outcome.antt =====
-- What RetryWithBackoff of agents/executor/retry/retry.go returns, from what the calls return.
use mathlib.Core.Path.{subst}
use go_driftlessaf.Base.{
  sym, ◌-◌, ℕ, zero, suc, ◌+◌, ◌≤◌, ◌≡◌, refl, ap, Bool, true, false, Option, none, some, List, [],
  ◌∷◌, arith, pos, length,
}
use go_driftlessaf.Workqueue.Errors.{Err, wrapped}
use go_driftlessaf.Agents.Retry.{
  RetryConfig, Run, attempts_from, retry_with_backoff, last_attempt, retried_attempt,
}

module _ {ℓ} {T : Type ℓ} (c : RetryConfig) (is_retryable : Err → Bool) (fn : ℕ → T × Option Err)
    (cancelled : ℕ → Option Err) (random : ℕ → Option ℕ) where
  -- The attempts from i on, one for each error of the list, failed with these retryable errors,
  -- and the context was not canceled after any of them.
  abbrev pub Failed : ℕ → List Err → Type ℓ
  Failed i [] = Unit
  Failed i (e ∷ es) =
      ((v : T) × (fn i ≡ (v, some e)))
      × (is_retryable e ≡ true)
      × (cancelled i ≡ none)
      × Failed (suc i) es

  -- How a run ended, after how many calls, and which errors it passed to OnAttemptError.
  pub record Ends (r : Run T) (v : T) (e : Option Err) (calls : ℕ) (reported : List Err)
      : Type ℓ where
    pub value : r.value ≡ v
    pub error : r.error ≡ e
    pub called : r.calls ≡ calls
    pub told : r.reported ≡ reported

  run_from : ℕ → ℕ → Run T
  run_from i left = attempts_from c is_retryable fn cancelled random i left

  -- A failure that is retried goes in front of the rest of the run.
  front :
      (i left : ℕ) (e : Err) (es : List Err) (v : T) (r : Option Err) (n : ℕ)
      → Failed i (e ∷ es)
      → Ends (run_from (suc i) left) v r n es
      → Ends (run_from i (suc left)) v r (suc n) (e ∷ es)
  unfolding run_from attempts_from
  front i left e es v r n ((w, failed), retryable, alive, more) h =
      rw (failed, attempts_from)
        (rw (retryable, alive)
          (record {
            value = h.value;
            error = h.error;
            called = ap suc h.called;
            told = ap (◌∷◌ e) h.told;
          }))

  -- A call that ends the run: a success, or an error that is not retried.
  abbrev pub IsFinal : T × Option Err → Option Err → Type 0
  IsFinal (v, none) r = r ≡ none
  IsFinal (v, some e) r = (is_retryable e ≡ false) × (r ≡ some e)

  final_here :
      (i left : ℕ) (v : T) (o r : Option Err)
      → fn i ≡ (v, o)
      → IsFinal (v, o) r
      → Ends (run_from i left) v r 1 []
  unfolding run_from attempts_from
  final_here i zero v none r e h =
      rw e (record { value = refl; error = sym h; called = refl; told = refl })
  final_here i (suc left) v none r e h =
      rw e (record { value = refl; error = sym h; called = refl; told = refl })
  final_here i zero v (some x) r e (stops, h) =
      rw e (rw stops (record { value = refl; error = sym h; called = refl; told = refl }))
  final_here i (suc left) v (some x) r e (stops, h) =
      rw e (rw stops (record { value = refl; error = sym h; called = refl; told = refl }))

  exhausted_here :
      (i : ℕ) (v : T) (e : Err)
      → fn i ≡ (v, some e)
      → is_retryable e ≡ true
      → Ends (run_from i 0) v (some (wrapped "failed after retries" e)) 1 []
  unfolding run_from attempts_from
  exhausted_here i v e h retryable =
      rw h (rw retryable (record { value = refl; error = refl; called = refl; told = refl }))

  -- Whatever ends the run behind the failures ends the whole run.
  behind :
      (i j left left' : ℕ) (es : List Err) (v : T) (r : Option Err)
      → Failed i es
      → j ≡ i + length es
      → left ≡ length es + left'
      → Ends (run_from j left') v r 1 []
      → Ends (run_from i left) v r (suc (length es)) es
  behind i j left left' [] v r f at room h =
      let a : j ≡ i = omega arith in let b : left' ≡ left = omega arith in rw (← a, ← b) h
  behind i j zero left' (e ∷ es) v r f at room h = absurd (omega arith)
  behind i j (suc left) left' (e ∷ es) v r f at room h =
      front i left e es v r (suc (length es)) f
        (behind (suc i) j left left' es v r f.3 (omega arith) (omega arith) h)

  started :
      (m : ℕ) (zero_value : T)
      → c.max_retries ≡ pos m
      → retry_with_backoff c is_retryable fn cancelled random zero_value ≡ run_from 0 m
  unfolding retry_with_backoff run_from
  started m zero_value e = rw e (ground arith)

  -- The function is called until it succeeds or fails with an error that is not retried, if that
  -- happens within the retries and the context lives: the run returns what that call returned, and
  -- OnAttemptError saw the failures before it, in order.
  pub retry_returns_final :
      (m : ℕ) (zero_value : T) (es : List Err) (v : T) (o r : Option Err)
      → c.max_retries ≡ pos m
      → Failed 0 es
      → length es ≤ m
      → fn (length es) ≡ (v, o)
      → IsFinal (v, o) r
      → Ends
          (retry_with_backoff c is_retryable fn cancelled random zero_value)
          v
          r
          (suc (length es))
          es
  retry_returns_final m zero_value es v o r e failed room last final = rw (started m zero_value e) (
      behind 0 (length es) m (m - length es) es v r failed (omega arith) (omega arith)
        (final_here (length es) (m - length es) v o r last final))

  -- If the call and all its retries fail with errors that are retried, the function is called once
  -- more than the retries say, the error of the last call is returned wrapped, and OnAttemptError
  -- saw all the failures but the last.
  pub retry_exhausts :
      (m : ℕ) (zero_value : T) (es : List Err) (v : T) (e : Err)
      → c.max_retries ≡ pos m
      → Failed 0 es
      → length es ≡ m
      → fn m ≡ (v, some e)
      → is_retryable e ≡ true
      → Ends
          (retry_with_backoff c is_retryable fn cancelled random zero_value)
          v
          (some (wrapped "failed after retries" e))
          (suc m)
          es
  retry_exhausts m zero_value es v e budget failed all last retryable =
      rw (started m zero_value budget) (
        subst (λ n. Ends (run_from 0 m) v (some (wrapped "failed after retries" e)) (suc n) es) all
          (behind 0 m m 0 es v (some (wrapped "failed after retries" e)) failed (omega arith)
            (omega arith) (exhausted_here m v e last retryable)))

  -- One call more than waits at most, at least one call, and one report for each wait.
  Counted : Run T → Type 0
  Counted r =
      (1 ≤ r.calls) × (r.calls ≤ suc (length r.waits)) × (length r.reported ≡ length r.waits)

  last-Counted :
      (o : T × Option Err)
      → let r = last_attempt c is_retryable fn cancelled random o in
        (length r.waits ≡ 0) × Counted r
  unfolding last_attempt Counted
  last-Counted (v, none) = omega arith
  last-Counted (v, some e) = omega arith

  retried-Counted :
      (i : ℕ) (o : T × Option Err) (rest : Run T)
      → Counted rest
      → let r = retried_attempt c is_retryable fn cancelled random i o rest in
        (length r.waits ≤ suc (length rest.waits)) × Counted r
  unfolding retried_attempt Counted
  retried-Counted i (v, none) rest h = omega arith
  retried-Counted i (v, some e) rest h = ground arith

  run_from-Counted :
      (i left : ℕ) → (length (run_from i left).waits ≤ left) × Counted (run_from i left)
  unfolding run_from attempts_from
  run_from-Counted i zero =
      let (none_waited, counted) = last-Counted (fn i) in (omega arith, counted)
  run_from-Counted i (suc left) =
      let (waited, counted) = run_from-Counted (suc i) left in
      let (more, whole) = retried-Counted i (fn i) (run_from (suc i) left) counted in
      (omega arith, whole)

  -- Whatever the calls return and whenever the context is canceled, the run waits at most as often
  -- as it may retry, reports one error for each wait, and calls the function at least once and at
  -- most once more than it waits.
  pub retry_counts :
      (m : ℕ) (zero_value : T)
      → c.max_retries ≡ pos m
      → let r = retry_with_backoff c is_retryable fn cancelled random zero_value in
        (length r.waits ≤ m)
        × (1 ≤ r.calls)
        × (r.calls ≤ suc (length r.waits))
        × (length r.reported ≡ length r.waits)
  unfolding Counted
  retry_counts m zero_value e = rw (started m zero_value e) (
    (run_from-Counted 0 m).0,
    (run_from-Counted 0 m).1.0,
    (run_from-Counted 0 m).1.1,
    (run_from-Counted 0 m).1.2,
  )
