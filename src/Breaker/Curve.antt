-- ===== src/Breaker/Curve.antt =====
-- backoff of breaker/breaker.go, with the jitter of internal/jitter/jitter.go.
use Prim.Native.Nat.{min}
use go_driftlessaf.Base.{
  ℕ, zero, suc, ◌-◌, ◌*◌, ◌^◌, ◌≤◌, ◌<◌, ◌≡◌, ◌∙◌, arith, inl, inr, Bool-cases, pos, pos_part,
  ltb_ℤ, min_ℤ, ◌≤ℤ◌, ◌<ℤ◌, to_int64, two63,
}
use go_driftlessaf.Clock.Doubling.{times_int64_two, pow_suc_mul, le-mul_pow}
use go_driftlessaf.Clock.{Duration, jitter_add}
use go_driftlessaf.Breaker.{Breaker, double_up, backoff}

double_up-min :
    (m : ℕ)
    → m * 2 < two63
    → (d k : ℕ) → min_ℤ (double_up (pos m) (pos d) k) (pos m) ≡ pos (min (d * 2 ^ k) m)
unfolding double_up
double_up-min m small d zero = ground arith
double_up-min m small d (suc k) = elim (Bool-cases (ltb_ℤ (pos d) (pos m))) [
  | inl more ↦ rw more (
      rw (times_int64_two d (ground arith))
        (double_up-min m small (d * 2) k ∙ rw (pow_suc_mul d k)))
  | inr stop ↦ rw stop (ground (arith, le-mul_pow d (suc k)))
]

-- A positive duration gets between 0% and 100% more, the upper end excluded; any other stays.
pub jitter_add_range :
    (d : Duration) (r : ℕ)
    → pos_part d * 2 < two63
    → (pos 0 <ℤ d → (d ≤ℤ jitter_add d r) × (pos_part (jitter_add d r) < pos_part d * 2))
      × (d ≤ℤ pos 0 → jitter_add d r ≡ d)
unfolding jitter_add to_int64
jitter_add_range d r small = ((λ h. ground arith), λ h. ground arith)

-- The backoff after a number of consecutive failures lies between the base delay doubled for each
-- failure after the first, cut at the maximum, and twice that.
pub backoff_range :
    (b : Breaker) (base most failures r : ℕ)
    → b.base_delay ≡ pos base
    → b.max_delay ≡ pos most
    → most * 2 < two63
    → 0 < base
    → 0 < most
    → let n = min (base * 2 ^ (failures - 1)) most in
      (0 < n) × (pos n ≤ℤ backoff b failures r) × (backoff b failures r <ℤ pos (n * 2)) × (n ≤ most)
unfolding backoff
backoff_range b base most failures r hb hm small pb pm =
    let n = min (base * 2 ^ (failures - 1)) most in
    let big : 0 < n = omega (arith, le-mul_pow base (failures - 1)) in
    let range = jitter_add_range (pos n) r (omega arith) in
    rw (hb, hm, double_up-min most small base (failures - 1))
      (big, (range.0 (omega arith)).0, omega (arith, (range.0 (omega arith)).1), omega arith)
