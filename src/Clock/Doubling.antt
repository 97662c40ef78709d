-- ===== src/Clock/Doubling.antt =====
-- Doubling a duration in int64 arithmetic, which the backoff loops of workqueue/dispatcher, breaker
-- and agents/executor/retry do.
use native.Mathlib.Nat.{pow-suc}
use go_driftlessaf.Base.{
  ℕ, zero, suc, ◌*◌, ◌^◌, ◌≤◌, ◌<◌, ◌≡◌, ap, ◌∙◌, arith, pos, to_int64, to_int64_small, two63,
}
use go_driftlessaf.Clock.{times_int64}

pub times_int64_two : (d : ℕ) → d * 2 < two63 → times_int64 2 (pos d) ≡ pos (d * 2)
unfolding times_int64
times_int64_two d h = ap to_int64 (omega arith) ∙ to_int64_small (d * 2) h

pub pow_suc_mul : (d k : ℕ) → d * 2 ^ suc k ≡ d * 2 * 2 ^ k
pow_suc_mul d k = rw pow-suc (omega arith)

pub pow_two_pos : (k : ℕ) → 1 ≤ 2 ^ k
pow_two_pos zero = omega arith
pow_two_pos (suc k) = rw pow-suc (omega (arith, pow_two_pos k))

pub le-mul_pow : (d k : ℕ) → d ≤ d * 2 ^ k
le-mul_pow d k = grind (arith, pow_two_pos k)
