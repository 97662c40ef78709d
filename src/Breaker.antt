-- ===== src/Breaker.antt =====
-- breaker/breaker.go: the keyed circuit breaker. The mutex serialises the calls; a call takes the
-- time that it reads and the random number that it draws.
pub mod Curve
pub mod History
pub mod Probe
pub mod Count
use go_driftlessaf.Base.{
  ℕ, zero, suc, ◌+◌, ◌-◌, String, Bool, true, false, ◌&&◌, Option, List, [], if◌then◌else◌, ℤ, pos,
  ltb_ℤ, min_ℤ, lookup, insert, remove, get_or,
}
use go_driftlessaf.Clock.{
  Instant, Duration, zero_time, hour, add_time, sub_time, before, times_int64, jitter_add,
}

pub record Circuit : Type 0 where
  pub failures : ℕ
  pub retry_at : Instant

-- What `b.circuits[key]` gives for a missing key.
abbrev pub closed : Circuit
closed = record { failures = 0; retry_at = zero_time }

pub record Breaker : Type 0 where
  pub threshold : ℤ
  pub base_delay : Duration
  pub max_delay : Duration
  pub circuits : List (String × Circuit)

abbrev pub new : Breaker
new = record { threshold = pos 5; base_delay = pos 30000000000; max_delay = hour; circuits = [] }

pub with_failure_threshold : ℤ → Breaker → Breaker
with_failure_threshold n b = record b { threshold = n }

pub with_base_delay : Duration → Breaker → Breaker
with_base_delay d b = record b { base_delay = d }

pub with_max_delay : Duration → Breaker → Breaker
with_max_delay d b = record b { max_delay = d }

abbrev pub circuit : String → Breaker → Circuit
circuit key b = get_or (lookup key b.circuits) closed

-- The loop of backoff over the rounds that are left.
double_up : Duration → Duration → ℕ → Duration
double_up most d zero = d
double_up most d (suc rounds) =
    let more = double_up most (times_int64 2 d) rounds in if ltb_ℤ d most then more else d

-- backoff; `r` is the random number of the jitter.
unfoldable pub backoff : Breaker → ℕ → ℕ → Duration
unfolding double_up
backoff b failures r =
    jitter_add (min_ℤ (double_up b.max_delay b.base_delay (failures - 1)) b.max_delay) r

pub record Verdict : Type 0 where
  pub allowed : Bool
  pub wait : Duration

unfoldable pub allow : String → Instant → ℕ → Breaker → Verdict × Breaker
allow key now r b =
    let c = circuit key b in
    if ltb_ℤ (pos c.failures) b.threshold
    then (record { allowed = true; wait = pos 0 }, b)
    else if before now c.retry_at
    then (record { allowed = false; wait = sub_time c.retry_at now }, b)
    else (
      record { allowed = true; wait = pos 0 },
      record b {
        circuits =
            insert key (record c { retry_at = add_time now (backoff b c.failures r) }) b.circuits;
      },
    )

unfoldable pub record_success : String → Breaker → Breaker
record_success key b = record b { circuits = remove key b.circuits }

unfoldable pub record_failure : String → Instant → ℕ → Breaker → Duration × Breaker
record_failure key now r b =
    let c = circuit key b in
    let delay = backoff b (c.failures + 1) r in
    (
      delay,
      record b {
        circuits =
            insert key (record { failures = c.failures + 1; retry_at = add_time now delay })
              b.circuits;
      },
    )
