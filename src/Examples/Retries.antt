-- ===== src/Examples/Retries.antt =====
-- Retried calls of agents/executor/retry/retry.go on concrete functions.
use go_driftlessaf.Base.{ℕ, zero, suc, refl, Bool, false, Option, none, some, [], ◌∷◌, pos, ◌==◌}
use go_driftlessaf.Workqueue.Errors.{Err, other, wrapped}
use go_driftlessaf.Agents.Retry.{RetryConfig, default_retry_config, retry_with_backoff}
use go_driftlessaf.Agents.Retry.Outcome.{Ends, retry_exhausts}

abbrev overloaded : Err → Bool
overloaded (other n) = n == 529
overloaded _ = false

-- The first two calls fail, the third returns 42.
abbrev third_time : ℕ → ℕ × Option Err
third_time zero = (0, some (other 529))
third_time (suc zero) = (0, some (other 529))
third_time (suc (suc n)) = (42, none)

abbrev never : ℕ → ℕ × Option Err
never n = (0, some (other 529))

abbrev two_retries : RetryConfig
two_retries = record default_retry_config { max_retries = pos 2 }

retry_exhausts_example :
    Ends two_retries overloaded never
      (λ n. none)
      (λ n. some 5)
      (retry_with_backoff two_retries overloaded never (λ n. none) (λ n. some 5) 0)
      0
      (some (wrapped "failed after retries" (other 529)))
      3
      (other 529 ∷ other 529 ∷ [])
retry_exhausts_example =
    retry_exhausts two_retries overloaded never (λ n. none) (λ n. some 5) 2 0
      (other 529 ∷ other 529 ∷ []) 0 (other 529) refl
      ((0, refl), refl, refl, ((0, refl), refl, refl, tt)) refl refl refl
