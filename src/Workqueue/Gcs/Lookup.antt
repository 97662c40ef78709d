-- ===== src/Workqueue/Gcs/Lookup.antt =====
-- workqueue/gcs/gcs.go: Get and getAttrs.
pub mod Stored
use go_driftlessaf.Base.{
  ℕ, ◌+◌, ◌*◌, String, Option, none, some, [], ◌∷◌, ℤ, pos, pos_part, neg_part, to_int32, Bytes,
}
use go_driftlessaf.Clock.{Instant, zero_time, unix}
use go_driftlessaf.Decimal.{parse_int, Parsed, parsed, parsed_value}
use go_driftlessaf.Workqueue.Options.{KeyState, Status}
use go_driftlessaf.Workqueue.Gcs.Bucket.{
  ObjectName, queued, in_progress, dead_letter, Attrs, Answer, ok, failed, read, Program, ret, call,
}
use go_driftlessaf.Workqueue.Gcs.Metadata.{TimeText}

-- `int32(attempts)`, which keeps the low 32 bits.
abbrev pub wrap32 : ℤ → ℤ
wrap32 i = to_int32 (pos_part i + neg_part i * 4294967295)

abbrev pub parsed_or_zero : Parsed → ℤ
parsed_or_zero (parsed i) = i
parsed_or_zero _ = pos 0

-- A number of getAttrs: 0 where there is none.
abbrev pub number_at : Option Bytes → ℤ
number_at none = pos 0
number_at (some t) = parsed_or_zero (parse_int t)

abbrev pub time_or_zero : Option Instant → Instant
time_or_zero none = zero_time
time_or_zero (some t) = t

abbrev pub instant_at : TimeText → Option Bytes → Instant
instant_at text none = zero_time
instant_at text (some t) = time_or_zero (text.parse t)

-- getAttrs and getInProgressKey, once the object is read.
unfoldable pub in_progress_state : TimeText → String → Attrs → KeyState
in_progress_state text key a = record {
  key = key;
  status = Status.in_progress;
  priority = number_at a.metadata.priority;
  attempts = wrap32 (number_at a.metadata.attempts);
  queued_time = pos 0;
  not_before_time = unix (instant_at text a.metadata.not_before);
}

-- getQueuedKey and getDeadLetterKey, which differ in the status.
unfoldable pub waiting_state : Status → TimeText → String → Attrs → KeyState
waiting_state status text key a = record {
  key = key;
  status = status;
  priority = number_at a.metadata.priority;
  attempts = wrap32 (number_at a.metadata.attempts);
  queued_time = unix a.created;
  not_before_time = unix (instant_at text a.metadata.not_before);
}

get_dead : TimeText → String → Answer Attrs → Program (Option KeyState)
get_dead text key (ok a) = ret (some (waiting_state Status.dead_letter text key a))
get_dead text key (failed e) = ret none

get_queued : TimeText → String → Answer Attrs → Program (Option KeyState)
unfolding get_dead
get_queued text key (ok a) = ret (some (waiting_state Status.queued text key a))
get_queued text key (failed e) = call (read (dead_letter key)) (get_dead text key)

get_in_progress : TimeText → String → Answer Attrs → Program (Option KeyState)
unfolding get_queued
get_in_progress text key (ok a) = ret (some (in_progress_state text key a))
get_in_progress text key (failed e) = call (read (queued key)) (get_queued text key)

-- Get; `none` is the error codes.NotFound, whatever the errors of the reads are.
unfoldable pub get : TimeText → String → Program (Option KeyState)
unfolding get_in_progress
get text key = call (read (in_progress key)) (get_in_progress text key)
