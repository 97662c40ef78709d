-- ===== src/Workqueue/Gcs/Listing.antt =====
-- workqueue/gcs/gcs.go: Enumerate, over the objects that the bucket lists, and the dead-lettered
-- keys. The metrics that it sets are left out.
pub mod Best
use go_driftlessaf.Base.{
  ℕ, String, Bool, true, false, not, ◌&&◌, Option, none, some, List, [], ◌∷◌, ◌++◌, if◌then◌else◌,
  ltb, length, take, sort, ℤ, pos, ltb_ℤ, eqb_ℤ, Bytes, ascii, less, same,
}
use go_driftlessaf.Clock.{Instant, before}
use go_driftlessaf.Decimal.{parse_int, Parsed, parsed, bad_syntax, out_of_range}
use go_driftlessaf.Workqueue.Gcs.Bucket.{
  ObjectName, queued, in_progress, dead_letter, Metadata, Attrs, Fault, Answer, ok, failed,
}
use go_driftlessaf.Workqueue.Gcs.Metadata.{TimeText, no_not_before}
use go_driftlessaf.Workqueue.Gcs.Owned.{QueuedKey, InProgressKey}

-- deadLetteredKey
pub record DeadLetteredKey : Type 0 where
  pub key : String
  pub attrs : Attrs
  pub priority : ℤ

-- The value that strconv.ParseInt gives with an error is used too.
abbrev pub value_of : Parsed → ℤ
value_of (parsed i) = i
value_of bad_syntax = pos 0
value_of (out_of_range i) = i

abbrev pub listed_priority : Option Bytes → ℤ
listed_priority none = pos 0
listed_priority (some p) = value_of (parse_int p)

-- A not-before to be waited for: there, neither empty nor the zero time, and a text of a time.
unfoldable pub waits_until : TimeText → Option Bytes → Option Instant
unfolding same
waits_until text none = none
waits_until text (some []) = none
waits_until text (some (b ∷ s)) =
    if same (b ∷ s) (no_not_before text) then none else text.parse (b ∷ s)

-- Whether the object is skipped until its not-before.
unfoldable pub is_early : TimeText → Instant → Metadata → Bool
unfolding waits_until
is_early text now m = elim (waits_until text m.not_before) [ none ↦ false | some t ↦ before now t ]

-- The order of sort.Slice: by priority, the highest first, then by creation, then by name.
unfoldable pub runs_before : QueuedKey → QueuedKey → Bool
unfolding less
runs_before a b =
    if not (eqb_ℤ a.priority b.priority)
    then ltb_ℤ b.priority a.priority
    else if not (eqb_ℤ a.attrs.created b.attrs.created)
    then before a.attrs.created b.attrs.created
    else less (ascii a.key) (ascii b.key)

-- The queue that lists: its limit and its owner.
pub record Lister : Type 0 where
  pub limit : ℕ
  pub owner : Bytes

pub record Found : Type 0 where
  pub wip : List InProgressKey
  pub qd : List QueuedKey
  pub dl : List DeadLetteredKey

abbrev pub nothing_found : Found
nothing_found = record { wip = []; qd = []; dl = [] }

abbrev pub observed : String → Attrs → InProgressKey
observed k a = record {
  key = k;
  attrs = a;
  priority = listed_priority a.metadata.priority;
  held = false;
}

abbrev pub waiting : Lister → String → Attrs → QueuedKey
waiting w k a = record {
  key = k;
  attrs = a;
  priority = listed_priority a.metadata.priority;
  owner = w.owner;
}

abbrev pub buried : String → Attrs → DeadLetteredKey
buried k a = record { key = k; attrs = a; priority = listed_priority a.metadata.priority }

-- Append, sort, cut to the limit.
unfoldable pub collect : ℕ → List QueuedKey → QueuedKey → List QueuedKey
collect limit qd k =
    let sorted = sort runs_before (qd ++ k ∷ []) in
    if ltb limit (length sorted) then take limit sorted else sorted

-- The `switch` of the loop body, by the prefix of the name.
unfoldable pub visit : Lister → TimeText → (String → Instant) → Found → ObjectName → Attrs → Found
visit w text clock f (in_progress k) a = record f { wip = f.wip ++ observed k a ∷ [] }
visit w text clock f (queued k) a =
    if is_early text (clock k) a.metadata
    then f
    else record f { qd = collect w.limit f.qd (waiting w k a) }
visit w text clock f (dead_letter k) a = record f { dl = f.dl ++ buried k a ∷ [] }

unfoldable pub visit_all : Lister → TimeText → (String → Instant) → Found → List Attrs → Found
unfolding visit
visit_all w text clock f [] = f
visit_all w text clock f (a ∷ rest) = visit_all w text clock (visit w text clock f a.name a) rest

-- Enumerate: what the iterator gives before it is done or fails, and the error if it fails.
-- `clock k` is the time read when key k is looked at.
unfoldable pub enumerate :
    Lister → TimeText → (String → Instant) → List Attrs → Option Fault → Answer Found
enumerate w text clock objects none = ok (visit_all w text clock nothing_found objects)
enumerate w text clock objects (some e) = failed e

-- GetFailedTime and GetAttempts of a dead-lettered key.
abbrev parsed_or : TimeText → Instant → Option Bytes → Instant
parsed_or text created none = created
parsed_or text created (some []) = created
parsed_or text created (some (b ∷ s)) = elim (text.parse (b ∷ s)) [ none ↦ created | some t ↦ t ]

unfoldable pub get_failed_time : TimeText → DeadLetteredKey → Instant
get_failed_time text d = parsed_or text d.attrs.created d.attrs.metadata.failed_time

abbrev attempts_or_zero : Option Bytes → ℤ
attempts_or_zero none = pos 0
attempts_or_zero (some t) = elim (parse_int t) [ parsed n ↦ n | _ ↦ pos 0 ]

unfoldable pub dead_attempts : DeadLetteredKey → ℤ
dead_attempts d = attempts_or_zero d.attrs.metadata.attempts
