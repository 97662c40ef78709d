-- ===== src/Clock.antt =====
-- The parts of Go's time package that the source uses: instants, durations and their arithmetic.
-- An instant is its distance in nanoseconds from the zero time.Time (January 1 of year 1); a
-- duration is an int64 number of nanoseconds.
pub mod Doubling
use go_driftlessaf.Base.{
  ℕ, ◌+◌, ◌-◌, ◌*◌, ◌/◌, Bool, if◌then◌else◌, ℤ, pos, negsuc, pos_part, neg_part, ◌-ℤ◌, ◌+ℤ◌, ltb_ℤ,
  leb_ℤ, ◌%◌, suc, to_int64, two64,
}

abbrev pub Instant : Type 0
Instant = ℤ

abbrev pub Duration : Type 0
Duration = ℤ

abbrev pub second_ns : ℕ
second_ns = 1000000000

abbrev pub millisecond : Duration
millisecond = pos 1000000

abbrev pub second : Duration
second = pos second_ns

abbrev pub minute : Duration
minute = pos 60000000000

abbrev pub hour : Duration
hour = pos 3600000000000

abbrev pub zero_time : Instant
zero_time = pos 0

-- `t.Add(d)`
unfoldable pub add_time : Instant → Duration → Instant
add_time t d = t +ℤ d

-- `t.Before(u)`
abbrev pub before : Instant → Instant → Bool
before t u = ltb_ℤ t u

-- Floor division by a positive number of nanoseconds.
unfoldable pub floor_div : ℤ → ℕ → ℤ
floor_div (pos n) k = pos (n / k)
floor_div (negsuc n) k = negsuc (n / k)

abbrev pub scale : ℤ → ℕ → ℤ
scale (pos n) k = pos (n * k)
scale (negsuc n) k = negsuc (suc n * k - 1)

-- The quotient of two durations, the second positive, which Go cuts towards zero.
abbrev pub quotient : Duration → ℕ → ℤ
quotient (pos n) m = pos (n / m)
quotient (negsuc n) m = pos 0 -ℤ pos ((n + 1) / m)

-- Seconds from the zero time to the Unix epoch.
abbrev pub unix_offset : ℕ
unix_offset = 62135596800

-- `t.Unix()`
unfoldable pub unix : Instant → ℤ
unfolding floor_div
unix t = floor_div t second_ns -ℤ pos unix_offset

-- The int64 product `n * d`, with its wrap-around; -x is x * (2 ^ 64 - 1) modulo 2 ^ 64.
unfoldable pub times_int64 : ℕ → ℤ → ℤ
times_int64 n d = to_int64 (n * pos_part d + n * neg_part d * (two64 - 1))

-- The int64 sum of two durations, with its wrap-around.
unfoldable pub add_duration : Duration → Duration → Duration
add_duration a b = to_int64 (pos_part a + pos_part b + (neg_part a + neg_part b) * (two64 - 1))

-- `t.Sub(u)`, which is cut to the range of an int64.
abbrev pub max_duration : Duration
max_duration = pos 9223372036854775807

abbrev pub min_duration : Duration
min_duration = negsuc 9223372036854775807

unfoldable pub sub_time : Instant → Instant → Duration
sub_time t u =
    let d = t -ℤ u in
    if ltb_ℤ max_duration d then max_duration else if ltb_ℤ d min_duration then min_duration else d

-- `t.Truncate(d)`: down to a multiple of d from the zero time; t itself if d is not positive.
unfoldable pub truncate : Instant → Duration → Instant
unfolding floor_div
truncate t d = if ltb_ℤ (pos 0) d then scale (floor_div t (pos_part d)) (pos_part d) else t

-- jitter.Add(d) of internal/jitter/jitter.go; `r` is the random number, drawn below d.
unfoldable pub jitter_add : Duration → ℕ → Duration
jitter_add d r = if leb_ℤ d (pos 0) then d else to_int64 (pos_part d + r % pos_part d)
