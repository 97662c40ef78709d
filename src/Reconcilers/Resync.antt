-- ===== src/Reconcilers/Resync.antt =====
-- reconcilers/resync/sharder.go: a cron job that spreads the keys of a period over its firings. The
-- first eight bytes of the SHA-256 of the salt and the key are a parameter; the goroutines of one
-- call each send one request, and are taken in one order.
pub mod Shards
use go_driftlessaf.Base.{
  ℕ, zero, ◌+◌, ◌*◌, ◌/◌, ◌%◌, String, Bool, true, false, ◌&&◌, Option, none, some, List, [], ◌∷◌,
  if◌then◌else◌, ltb, leb, ◌==◌, not, ℤ, pos, negsuc, pos_part, neg_part, ltb_ℤ, leb_ℤ, ◌-ℤ◌, ◌+ℤ◌,
  max_ℤ,
}
use go_driftlessaf.Clock.{
  quotient, Instant, Duration, second_ns, add_time, sub_time, truncate, unix, scale,
}

abbrev pub minute_ns : ℕ
minute_ns = 60000000000

pub data Error : Type 0 where
  tick_not_positive tick_not_minutes no_client no_clock no_concurrency : Error
  period_not_positive period_not_ticks : Error

pub data Result {ℓ} (A : Type ℓ) : Type ℓ where
  ok : A → Result A
  err : Error → Result A

-- The options of New; the clock stands for the function of WithNow, which may be nil.
pub record SharderOptions : Type 0 where
  pub priority : ℤ
  pub now : Option Instant
  pub concurrency : ℤ

pub record Sharder : Type 0 where
  pub start : Instant
  pub tick : Duration
  pub concurrency : ℤ
  pub priority : ℤ

-- `d % m` for a positive m: Go's remainder has the sign of d, and is zero with this one.
abbrev pub divides : ℕ → Duration → Bool
divides m d = (pos_part d + neg_part d) % m == 0

with_clock : Duration → SharderOptions → Option Instant → Result Sharder
with_clock tick o none = err no_clock
with_clock tick o (some start) =
    if leb_ℤ o.concurrency (pos 0)
    then err no_concurrency
    else ok
        (record { start = start; tick = tick; concurrency = o.concurrency; priority = o.priority })

-- New; `has_client` is false for a nil client.
unfoldable pub new : Duration → Bool → SharderOptions → Result Sharder
unfolding with_clock
new tick has_client o =
    if leb_ℤ tick (pos 0)
    then err tick_not_positive
    else if not (divides minute_ns tick)
    then err tick_not_minutes
    else if not has_client
    then err no_client
    else with_clock tick o o.now

pub record Request : Type 0 where
  pub key : String
  pub priority : ℤ
  pub delay_seconds : ℤ

module _ (sum64 : ℕ → String → ℕ) where
  -- The conversion of the salt to a uint64 keeps its bits.
  unfoldable pub salt_bits : ℤ → ℕ
  salt_bits z = (pos_part z + neg_part z * 18446744073709551615) % 18446744073709551616

  unfoldable pub bucket : ℕ → String → ℕ → ℕ
  bucket salt key period_minutes = sum64 salt key % period_minutes

  -- The minute of the period that the key falls in.
  unfoldable pub key_minute : Sharder → Duration → String → ℕ
  unfolding salt_bits bucket
  key_minute s period key =
      bucket (salt_bits (unix (truncate s.start period))) key (pos_part period / minute_ns)

  -- The first minute of the shard, within the period.
  unfoldable pub shard_start : Sharder → Duration → ℤ
  shard_start s period =
      quotient (sub_time (truncate s.start s.tick) (truncate s.start period)) minute_ns

  unfoldable pub in_shard : Sharder → Duration → String → Bool
  unfolding key_minute shard_start
  in_shard s period key =
      let minute = pos (key_minute s period key) in
      let first = shard_start s period in
      if ltb_ℤ minute first
      then false
      else ltb_ℤ minute (first +ℤ pos (pos_part s.tick / minute_ns))

  -- The request for a key of the shard; `now` is the clock at the moment of the enqueue.
  unfoldable pub request : Sharder → Duration → Instant → String → Request
  unfolding key_minute shard_start
  request s period now key =
      let offset = pos (key_minute s period key) -ℤ shard_start s period in
      let target = add_time s.start (scale offset minute_ns) in
      record {
        key = key;
        priority = s.priority;
        delay_seconds = max_ℤ (pos 0) (quotient (sub_time target now) second_ns);
      }

  requests : Sharder → Duration → (String → Instant) → List String → List Request
  unfolding in_shard request
  requests s period now [] = []
  requests s period now (k ∷ ks) =
      let rest = requests s period now ks in
      if in_shard s period k then request s period (now k) k ∷ rest else rest

  -- Process, up to the answers of the queue: the requests that it sends.
  unfoldable pub process :
      Sharder → Duration → (String → Instant) → List String → Result (List Request)
  unfolding requests
  process s period now keys =
      if leb_ℤ period (pos 0)
      then err period_not_positive
      else if not (divides (pos_part s.tick) period)
      then err period_not_ticks
      else ok (requests s period now keys)
