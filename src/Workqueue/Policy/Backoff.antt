-- ===== src/Workqueue/Policy/Backoff.antt =====
-- retryBackoff of workqueue/dispatcher/dispatcher.go: the loop against its closed form, and the
-- range of the jittered delay.
use Prim.Native.Nat.{min}
use go_driftlessaf.Base.{
  ◌/◌, ◌⊎◌, refl, ◌+◌, ◌≤ℤ◌, ◌<ℤ◌, ◌≤◌, to_int64, ℕ, zero, suc, ◌*◌, ◌^◌, ◌≤◌, ◌<◌, ◌≡◌, ◌∙◌, arith,
  inl, inr, Bool-cases, ℤ, pos, pos_part, leb_ℤ, min_ℤ, ◌-ℤ◌, two63,
}
use go_driftlessaf.Clock.Doubling.{times_int64_two, pow_suc_mul, le-mul_pow}
use go_driftlessaf.Workqueue.Options.{Tuning}
use go_driftlessaf.Workqueue.Policy.{
  retry_delay, Config, add_jitter, hooked, backoff_loop, retry_backoff,
}

backoff_loop-min :
    (m : ℕ)
    → m * 2 < two63
    → (d k : ℕ) → min_ℤ (backoff_loop (pos m) (pos d) k) (pos m) ≡ pos (min (d * 2 ^ k) m)
unfolding backoff_loop
backoff_loop-min m small d zero = ground arith
backoff_loop-min m small d (suc k) = elim (Bool-cases (leb_ℤ (pos m) (pos d))) [
  | inl stop ↦ rw stop (ground (arith, le-mul_pow d (suc k)))
  | inr more ↦ rw more (
      rw (times_int64_two d (ground arith))
        (backoff_loop-min m small (d * 2) k ∙ rw (pow_suc_mul d k)))
]

-- While twice the cap fits an int64, the loop computes the base period doubled for each attempt
-- after the first, and cut at the cap; attempt counts below one count as one.
pub retry_backoff_closed :
    (t : Tuning) (base most : ℕ) (attempts : ℤ)
    → t.backoff_period ≡ pos base
    → t.maximum_backoff_period ≡ pos most
    → most * 2 < two63
    → retry_backoff t attempts ≡ pos (min (base * 2 ^ pos_part (attempts -ℤ pos 1)) most)
unfolding retry_backoff
retry_backoff_closed t base most attempts b m small =
    rw (b, m) (backoff_loop-min most small base (pos_part (attempts -ℤ pos 1)))

retry_backoff_pos :
    (t : Tuning) (base most : ℕ) (attempts : ℤ)
    → t.backoff_period ≡ pos base
    → t.maximum_backoff_period ≡ pos most
    → most * 2 < two63
    → 0 < base
    → 0 < most
    → (n : ℕ) × (retry_backoff t attempts ≡ pos n) × (0 < n) × (n ≤ most)
retry_backoff_pos t base most attempts b m small hb hm =
    let k = pos_part (attempts -ℤ pos 1) in
    (
      min (base * 2 ^ k) most,
      retry_backoff_closed t base most attempts b m small,
      omega (arith, le-mul_pow base k),
      omega arith,
    )

add_jitter_range :
    (n random : ℕ)
    → n * 2 < two63
    → (pos n ≤ℤ add_jitter (pos n) random) × (add_jitter (pos n) random ≤ℤ pos (n + n / 2))
unfolding add_jitter to_int64
add_jitter_range n random small = ground arith

-- The delay of a failure retry is positive whatever the hook returns, so the requeue takes the
-- branch that keeps the attempt count; and where the hook gives nothing positive, the delay lies
-- between the curve's value and half as much again.
pub retry_delay_range :
    (c : Config) (base most : ℕ) (attempts : ℤ) (random : ℕ)
    → c.tuning.backoff_period ≡ pos base
    → c.tuning.maximum_backoff_period ≡ pos most
    → most * 2 < two63
    → 0 < base
    → 0 < most
    → let d = retry_delay c attempts random in
      (pos 0 <ℤ d)
      × ((d ≡ hooked c.backoff attempts)
          ⊎ ((n : ℕ) × (retry_backoff c.tuning attempts ≡ pos n)
              × (pos n ≤ℤ d)
              × (d ≤ℤ pos (n + n / 2))
              × (n ≤ most)))
unfolding retry_delay
retry_delay_range c base most attempts random b m small hb hm =
    let (n, e, above, within) = retry_backoff_pos c.tuning base most attempts b m small hb hm in
    let range = add_jitter_range n random (omega arith) in
    elim (Bool-cases (leb_ℤ (hooked c.backoff attempts) (pos 0))) [
      | inl none_given ↦
          rw (none_given, e) (omega (arith, range), inr (n, refl, range.0, range.1, within))
      | inr given ↦ rw given (ground arith, inl refl)
    ]
