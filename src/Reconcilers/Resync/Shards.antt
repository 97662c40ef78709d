-- ===== src/Reconcilers/Resync/Shards.antt =====
-- The shards of reconcilers/resync/sharder.go: which keys a firing takes, and with what delay.
use native.Mathlib.Nat.{
  div-add-mod', add-mul-div_right, mul-div_left, mul_assoc, mod-lt, div-mul-le_self, lt-div-mul-add,
  div-lt_iff_lt-mul,
}
use go_driftlessaf.Base.{
  ℕ, ◌+◌, ◌-◌, ◌*◌, ◌/◌, ◌%◌, ◌<◌, ◌≤◌, ◌≡◌, sym, ap, ◌∙◌, String, true, false, arith,
  if◌then◌else◌, leb, ◌==◌, ==_iff, pos, ltb_ℤ, ◌+ℤ◌, ◌-ℤ◌, max_ℤ, two63, inl, inr, Bool-cases,
  leb→le,
}
use go_driftlessaf.Clock.{quotient, Instant, truncate, sub_time, add_time, unix, second_ns, scale}
use go_driftlessaf.Reconcilers.Resync.{
  Sharder, minute_ns, key_minute, shard_start, in_shard, request, bucket, salt_bits,
}

truncate_pos : (n d : ℕ) → 0 < d → truncate (pos n) (pos d) ≡ pos (n / d * d)
unfolding truncate
truncate_pos n d h = ground arith

sub_time_pos : (a b : ℕ) → b ≤ a → a - b < two63 → sub_time (pos a) (pos b) ≡ pos (a - b)
unfolding sub_time ◌-ℤ◌
sub_time_pos a b h small = ground arith

mul_pos : (k w : ℕ) → 0 < k → 0 < w → 0 < k * w
mul_pos k w a b = grind arith

-- The ticks before an instant: those before its period, and those of its period.
tick_split : (n k w : ℕ) → 0 < w → n / w ≡ n % (k * w) / w + n / (k * w) * k
tick_split n k w h =
    let q = n / (k * w) in
    let r = n % (k * w) in
    let whole : n ≡ r + q * k * w = omega (arith, div-add-mod' n (k * w), mul_assoc q k w) in
    ap (λ x. x / w) whole ∙ add-mul-div_right r (q * k) h

less_whole : (m a q k w : ℕ) → m ≡ a + q * k → (m * w - q * (k * w) ≡ a * w) × (q * (k * w) ≤ m * w)
less_whole m a q k w e = rw e (omega arith)

shard_minutes :
    (n k t w : ℕ)
    → 0 < t
    → 0 < k
    → w ≡ t * minute_ns
    → k * w < two63
    → quotient (sub_time (truncate (pos n) (pos w)) (truncate (pos n) (pos (k * w)))) minute_ns
      ≡ pos (n % (k * w) / w * t)
shard_minutes n k t w ht hk hw small =
    let some_w : 0 < w = omega arith in
    let some_period : 0 < k * w = mul_pos k w hk some_w in
    let i = n % (k * w) / w in
    let (diff, below) = less_whole (n / w) i (n / (k * w)) k w (tick_split n k w some_w) in
    let within : i * w < k * w =
      omega (arith, div-mul-le_self (n % (k * w)) w, mod-lt n some_period) in
    rw (truncate_pos n w some_w, truncate_pos n (k * w) some_period)
      (rw (sub_time_pos (n / w * w) (n / (k * w) * (k * w)) below (omega arith))
        (ap pos (rw diff (minutes i t w hw))))
  where
    minutes : (i t w : ℕ) → w ≡ t * minute_ns → i * w / minute_ns ≡ i * t
    minutes i t w hw = rw (hw, ← mul_assoc) (mul-div_left (i * t) (omega arith))

==_comm : (a b : ℕ) → (a == b) ≡ (b == a)
==_comm a b = ground arith

mul_step : (i d t : ℕ) → i < d → i * t + t ≤ d * t
mul_step i d t h = grind arith

-- The two comparisons of a minute with the ends of a shard ask which tick it lies in.
shard_test :
    (m i t : ℕ)
    → 0 < t
    → (if ltb_ℤ (pos m) (pos (i * t)) then false else ltb_ℤ (pos m) (pos (i * t) +ℤ pos t))
      ≡ (m / t == i)
unfolding ◌+ℤ◌
shard_test m i t h = ground (
  arith,
  div-mul-le_self m t,
  lt-div-mul-add {a = m} {b = t} h,
  mul_step i (m / t) t,
  mul_step (m / t) i t,
)

not_leb : (a b : ℕ) → leb a b ≡ false → b < a
not_leb a b h = ground arith

past_delay :
    (a b : ℕ) → a < b → max_ℤ (pos 0) (quotient (sub_time (pos a) (pos b)) second_ns) ≡ pos 0
unfolding sub_time ◌-ℤ◌
past_delay a b h = ground arith

max-zero_pos : (x : ℕ) → max_ℤ (pos 0) (pos x) ≡ pos x
max-zero_pos x = ground arith

no_delay : (a b : ℕ) → a < b → pos 0 ≡ pos ((a - b) / second_ns)
no_delay a b h = ap (λ x. pos (x / second_ns)) {x = 0} {y = a - b} (omega arith)

quotient_delay :
    (a b : ℕ)
    → a - b < two63
    → max_ℤ (pos 0) (quotient (sub_time (pos a) (pos b)) second_ns) ≡ pos ((a - b) / second_ns)
quotient_delay a b small = elim (Bool-cases (leb b a)) [
  | inl h ↦ rw (sub_time_pos a b (leb→le b a h) small) (max-zero_pos ((a - b) / second_ns))
  | inr h ↦ past_delay a b (not_leb b a h) ∙ no_delay a b (not_leb b a h)
]

sub_pos : (a b : ℕ) → b ≤ a → pos a -ℤ pos b ≡ pos (a - b)
unfolding ◌-ℤ◌
sub_pos a b h = ground arith

+ℤ-pos : (a b : ℕ) → pos a +ℤ pos b ≡ pos (a + b)
unfolding ◌+ℤ◌
+ℤ-pos a b = ground arith

target_delay :
    (start : Instant) (n d e : ℕ)
    → start ≡ pos n
    → d * minute_ns < two63
    → max_ℤ
        (pos 0)
        (quotient (sub_time (add_time start (scale (pos d) minute_ns)) (pos (n + e))) second_ns)
      ≡ pos ((d * minute_ns - e) / second_ns)
unfolding add_time
target_delay start n d e starts small =
    rw (starts, +ℤ-pos n (d * minute_ns))
      (quotient_delay (n + d * minute_ns) (n + e) (omega arith)
        ∙ ap (λ x. pos (x / second_ns)) (omega arith))

-- The tick of the q-th period that a key belongs to: it depends on the period and the key alone.
unfoldable pub tick_of : (ℕ → String → ℕ) → ℕ → ℕ → ℕ → ℕ → String → ℕ
tick_of sum64 k t w q key =
    bucket sum64 (salt_bits sum64 (unix (pos (q * (k * w))))) key (k * t) / t

module _ (sum64 : ℕ → String → ℕ) (s : Sharder) (n t k w : ℕ) (starts : s.start ≡ pos n)
    (ticks : s.tick ≡ pos w) (minutes : w ≡ t * minute_ns) (some_tick : 0 < t) (some_period : 0 < k)
    (small : k * w < two63) where
  shard_start_lem : shard_start sum64 s (pos (k * w)) ≡ pos (n % (k * w) / w * t)
  unfolding shard_start
  shard_start_lem = rw (starts, ticks) (shard_minutes n k t w some_tick some_period minutes small)

  tick_minutes : w / minute_ns ≡ t
  tick_minutes = rw minutes (mul-div_left t (omega arith))

  period_minutes : k * w / minute_ns ≡ k * t
  period_minutes = rw (minutes, ← mul_assoc) (mul-div_left (k * t) (omega arith))

  key_tick :
      (key : String)
      → key_minute sum64 s (pos (k * w)) key / t ≡ tick_of sum64 k t w (n / (k * w)) key
  unfolding key_minute tick_of
  key_tick key =
      rw (starts, truncate_pos n (k * w) (mul_pos k w some_period (omega arith)), period_minutes)

  -- A key is in the shard of a firing exactly if the tick of the period that its minute falls in is
  -- the tick in which the firing starts.
  in_shard-eq :
      (key : String)
      → in_shard sum64 s (pos (k * w)) key
        ≡ (key_minute sum64 s (pos (k * w)) key / t == n % (k * w) / w)
  unfolding in_shard
  in_shard-eq key =
      rw (shard_start_lem, ticks, tick_minutes)
        (shard_test (key_minute sum64 s (pos (k * w)) key) (n % (k * w) / w) t some_tick)

  tick_of_lt : (q : ℕ) (key : String) → tick_of sum64 k t w q key < k
  unfolding tick_of bucket
  tick_of_lt q key = (div-lt_iff_lt-mul some_tick).1 (mod-lt _ (mul_pos k t some_period some_tick))

  -- Each key belongs to one tick of the period, among the k that the period has, and a firing takes
  -- the key exactly if it starts in that tick: so of the firings of a period, each in a tick of its
  -- own, exactly one enqueues the key.
  pub in_shard_once :
      (key : String)
      → (tick_of sum64 k t w (n / (k * w)) key < k)
        × (in_shard sum64 s (pos (k * w)) key
            ≡ (n % (k * w) / w == tick_of sum64 k t w (n / (k * w)) key))
  in_shard_once key = (
    tick_of_lt (n / (k * w)) key,
    in_shard-eq key
        ∙ ap (λ x. x == n % (k * w) / w) (key_tick key)
        ∙ ==_comm (tick_of sum64 k t w (n / (k * w)) key) (n % (k * w) / w),
  )

  in_shard_range :
      (key : String)
      → in_shard sum64 s (pos (k * w)) key ≡ true
      → let m = key_minute sum64 s (pos (k * w)) key in
        let i = n % (k * w) / w in (i * t ≤ m) × (m < i * t + t)
  in_shard_range key h =
      let m = key_minute sum64 s (pos (k * w)) key in
      let same : m / t ≡ n % (k * w) / w = (==_iff _ _).0 (sym (in_shard-eq key) ∙ h) in
      rw (← same) (div-mul-le_self m t, lt-div-mul-add some_tick)

  -- The request for a key of the shard asks for the key's minute in the shard, counted from the
  -- start and less the time that has passed since: so it asks for less than a tick, and never for a
  -- negative delay.
  pub request_delay :
      (key : String) (e : ℕ)
      → in_shard sum64 s (pos (k * w)) key ≡ true
      → (m : ℕ) × (m < t)
        × ((request sum64 s (pos (k * w)) (pos (n + e)) key).delay_seconds
            ≡ pos ((m * minute_ns - e) / second_ns))
  unfolding request
  request_delay key e h =
      let km = key_minute sum64 s (pos (k * w)) key in
      let i = n % (k * w) / w in
      let (low, high) = in_shard_range key h in
      (
        km - i * t,
        omega arith,
        rw (shard_start_lem, sub_pos km (i * t) low)
            (target_delay s.start n (km - i * t) e starts
              (omega (arith, mul_step 0 k w some_period))),
      )
