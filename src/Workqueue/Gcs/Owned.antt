-- ===== src/Workqueue/Gcs/Owned.antt =====
-- workqueue/gcs/gcs.go: the keys in progress, Start, IsOrphaned and GetAttempts. The maps of metadata are shared: a handler that changes the map of the
-- copy changes the map of the key that it was called on, and gives that key back.
pub mod Attempts
pub mod Claim
use go_driftlessaf.Base.{String, Bool, true, Option, none, some, [], ℤ, pos, Bytes}
use go_driftlessaf.Clock.{Instant, Duration, add_time, times_int64, add_duration, before}
use go_driftlessaf.Decimal.{format_int, parse_int, parsed}
use go_driftlessaf.Workqueue.Gcs.Bucket.{
  queued, in_progress, Metadata, Attrs, no_conditions, if_absent, Answer, ok, failed, copy, delete,
  clock, Program, ret, call,
}
use go_driftlessaf.Workqueue.Gcs.Metadata.{TimeText, no_not_before, value_at}

-- queuedKey
pub record QueuedKey : Type 0 where
  pub key : String
  pub attrs : Attrs
  pub priority : ℤ
  pub owner : Bytes

-- inProgressKey; `held` says that it has the context of an owner, which keys of Enumerate lack.
pub record InProgressKey : Type 0 where
  pub key : String
  pub attrs : Attrs
  pub priority : ℤ
  pub held : Bool

abbrev pub with_metadata : Attrs → Metadata → Attrs
with_metadata a m = record a { metadata = m }

-- The attempts of the next run.
unfoldable pub next_attempts : Option Bytes → Bytes
next_attempts none = format_int (pos 1)
next_attempts (some t) = elim (parse_int t) [
  | parsed n ↦ format_int (add_duration n (pos 1))
  | _ ↦ format_int (pos 1)
]

-- `time.Now().UTC().Add(3 * RefreshInterval)`
unfoldable pub lease_end : Duration → Instant → Instant
lease_end refresh now = add_time now (times_int64 3 refresh)

abbrev owner_text : Bytes → Option Bytes
owner_text [] = none
owner_text b = some b

-- The metadata that Start gives to the object in progress.
unfoldable pub start_metadata : TimeText → Duration → Bytes → Instant → Metadata → Metadata
unfolding next_attempts lease_end
start_metadata text refresh owner now m = record m {
  expiration = some (text.format (lease_end refresh now));
  owner = owner_text owner;
  attempts = some (next_attempts m.attempts);
  not_before = some (no_not_before text);
  not_before_floor = none;
}

-- What Start gives: the key in progress or an error, and the queued key with its map changed.
abbrev pub Claimed : Type 0
Claimed = Answer InProgressKey × QueuedKey

-- The delete of the queued object: its error is only logged.
start_copied : QueuedKey → Answer Attrs → Program Claimed
start_copied q (failed e) = ret (failed e, q)
start_copied q (ok a) =
    let o : InProgressKey = record { key = q.key; attrs = a; priority = q.priority; held = true } in
    call (delete (queued q.key) no_conditions) (λ _. ret (ok o, q))

-- Start. The heartbeat that it starts is in Lease.
unfoldable pub start : TimeText → Duration → QueuedKey → Program Claimed
unfolding start_copied
start text refresh q = call clock λ now.
    let m = start_metadata text refresh q.owner now q.attrs.metadata in
    let q' = record q { attrs = with_metadata q.attrs m } in
    call (copy (queued q.key) none (in_progress q.key) if_absent m) (start_copied q')

-- attemptsLocked
unfoldable pub get_attempts : InProgressKey → ℤ
get_attempts o = elim (parse_int (value_at o.attrs.metadata.attempts)) [ parsed n ↦ n | _ ↦ pos 0 ]

-- IsOrphaned, at the instant that it reads from the clock.
unfoldable pub is_orphaned : TimeText → InProgressKey → Instant → Bool
is_orphaned text o now = elim o.attrs.metadata.expiration [
  | none ↦ true
  | some t ↦ elim (text.parse t) [ none ↦ true | some expiry ↦ before expiry now ]
]
