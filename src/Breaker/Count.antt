-- ===== src/Breaker/Count.antt =====
-- The count of failures that breaker/breaker.go keeps for each key.
use go_driftlessaf.Base.{
  ℕ, ◌+◌, String, ◌≡◌, refl, ap, ◌∙◌, List, [], ◌∷◌, arith, if◌then◌else◌, str_eq, eq_iff,
  lookup-insert, lookup-remove, true, pos, ◌<ℤ◌,
}
use go_driftlessaf.Clock.{Instant, add_time}
use go_driftlessaf.Breaker.{Breaker, circuit, allow, record_success, record_failure, backoff}
use go_driftlessaf.Breaker.History.{Op, allows, fails, succeeds, run_op, run_ops, run_ops-tuning}

-- The failures of a key in a row, at the end of a history that begins with n of them.
unfoldable pub streak : String → ℕ → List Op → ℕ
streak k n [] = n
streak k n (allows j now r ∷ ops) = streak k n ops
streak k n (fails j now r ∷ ops) = streak k (if str_eq j k then n + 1 else n) ops
streak k n (succeeds j ∷ ops) = streak k (if str_eq j k then 0 else n) ops

allow-failures :
    (k j : String) (now : Instant) (r : ℕ) (b : Breaker)
    → (circuit k (allow j now r b).1).failures ≡ (circuit k b).failures
unfolding allow
allow-failures k j now r b = ground (
  arith,
  eq_iff j k,
  lookup-insert j k
      (record {
        failures = (circuit j b).failures;
        retry_at = add_time now (backoff b (circuit j b).failures r);
      })
      b.circuits,
)

fail-failures :
    (k j : String) (now : Instant) (r : ℕ) (b : Breaker)
    → (circuit k (record_failure j now r b).1).failures
      ≡ (if str_eq j k then (circuit k b).failures + 1 else (circuit k b).failures)
unfolding record_failure
fail-failures k j now r b = rw (lookup-insert j k _ b.circuits) (ground (arith, eq_iff j k))

succeed-failures :
    (k j : String) (b : Breaker)
    → (circuit k (record_success j b)).failures ≡ (if str_eq j k then 0 else (circuit k b).failures)
unfolding record_success
succeed-failures k j b = rw (lookup-remove j k b.circuits) (ground arith)

-- After any calls, the count of a key is its failures since its last success, whatever the other
-- keys and the probes did.
pub run_ops-failures :
    (k : String) (ops : List Op) (b : Breaker)
    → (circuit k (run_ops ops b)).failures ≡ streak k (circuit k b).failures ops
unfolding run_ops run_op streak
run_ops-failures k [] b = refl
run_ops-failures k (allows j now r ∷ ops) b =
    run_ops-failures k ops (allow j now r b).1
    ∙ ap (λ n. streak k n ops) (allow-failures k j now r b)
run_ops-failures k (fails j now r ∷ ops) b =
    run_ops-failures k ops (record_failure j now r b).1
    ∙ ap (λ n. streak k n ops) (fail-failures k j now r b)
run_ops-failures k (succeeds j ∷ ops) b =
    run_ops-failures k ops (record_success j b) ∙ ap (λ n. streak k n ops) (succeed-failures k j b)

allow_below :
    (k : String) (now : Instant) (r : ℕ) (b : Breaker)
    → pos (circuit k b).failures <ℤ b.threshold
    → allow k now r b ≡ (record { allowed = true; wait = pos 0 }, b)
unfolding allow
allow_below k now r b h = ground arith

-- After any calls, an attempt is allowed at once, and changes nothing, while the failures in a row
-- are below the threshold.
pub allow_under_threshold :
    (k : String) (now : Instant) (r : ℕ) (ops : List Op) (b : Breaker)
    → pos (streak k (circuit k b).failures ops) <ℤ b.threshold
    → allow k now r (run_ops ops b) ≡ (record { allowed = true; wait = pos 0 }, run_ops ops b)
allow_under_threshold k now r ops b h =
    allow_below k now r (run_ops ops b)
      (rw (run_ops-failures k ops b, (run_ops-tuning ops b).threshold) h)
