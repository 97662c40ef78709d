-- ===== src/Examples/Sharding.antt =====
-- The cron job of reconcilers/resync/sharder.go on a concrete schedule: every hour, over a day.
use go_driftlessaf.Base.{ℕ, ◌≡◌, refl, ◌*◌, ◌/◌, ◌%◌, ◌<◌, ◌==◌, String, pos, arith}
use go_driftlessaf.Reconcilers.Resync.{Sharder, in_shard}
use go_driftlessaf.Reconcilers.Resync.Shards.{tick_of, in_shard_once}

-- Half past one in the morning.
abbrev half_past_one : ℕ
half_past_one = 5400000000000

abbrev hourly : Sharder
hourly = record {
  start = pos half_past_one;
  tick = pos 3600000000000;
  concurrency = pos 10;
  priority = pos 0;
}

-- Each key falls on minute 105 of the day.
abbrev minute_105 : ℕ → String → ℕ
minute_105 salt key = 105

in_shard_once_example :
    (tick_of minute_105 24 60 3600000000000 (half_past_one / (24 * 3600000000000)) "a" < 24)
    × (in_shard minute_105 hourly (pos (24 * 3600000000000)) "a" ≡ (
        half_past_one % (24 * 3600000000000) / 3600000000000
        == tick_of minute_105 24 60 3600000000000 (half_past_one / (24 * 3600000000000)) "a"))
in_shard_once_example =
    in_shard_once minute_105 hourly half_past_one 60 24 3600000000000 refl refl refl (omega arith)
      (omega arith) (omega arith) "a"
