-- ===== src/Workqueue/Gcs/Metadata.antt =====
-- workqueue/gcs/gcs.go: the metadata of a queued object, which holds the options of the key as text,
-- and the merge of updateMetadata.
pub mod Merge
use Prim.Native.Nat.{min}
use go_driftlessaf.Base.{
  ℕ, ◌*◌, ◌/◌, ◌<◌, ◌≡◌, String, Bool, true, false, ◌&&◌, ◌||◌, Option, none, some, [],
  if◌then◌else◌, ltb, is_some, get_or, pos, Bytes, ascii, less, same,
}
use go_driftlessaf.Clock.{Instant, zero_time, second_ns}
use go_driftlessaf.Decimal.{format_padded}
use go_driftlessaf.Workqueue.Options.{Options}
use go_driftlessaf.Workqueue.Gcs.Bucket.{Metadata}

-- Go's package time: `t.UTC().Format(time.RFC3339)`, and time.Parse with that layout where it gives
-- no error.
pub record TimeText : Type 0 where
  pub format : Instant → Bytes
  pub parse : Bytes → Option Instant

-- The first nanosecond of the year 10000, whose texts have one more digit.
abbrev pub year_10000 : ℕ
year_10000 = 315537897600000000000

-- What the queue relies on from the year 1 to 9999: a text is as long as every other, so that texts
-- compare as their seconds do; it shows no more than the second; and it can be read back.
pub record IsTimeText (text : TimeText) : Type 0 where
  pub less-format :
      (a b : ℕ)
      → a < year_10000
      → b < year_10000
      → less (text.format (pos a)) (text.format (pos b)) ≡ ltb (a / second_ns) (b / second_ns)
  pub format_second :
      (a : ℕ) → a < year_10000 → text.format (pos a) ≡ text.format (pos (a / second_ns * second_ns))
  pub parse-format :
      (a : ℕ)
      → a < year_10000
      → text.parse (text.format (pos a)) ≡ some (pos (a / second_ns * second_ns))

-- A key that the map lacks reads as the empty text.
abbrev pub value_at : Option Bytes → Bytes
value_at v = get_or v []

-- notBeforeFloorValue
abbrev pub not_before_floor_value : Bytes
not_before_floor_value = ascii "true"

-- noPriority and noNotBefore
abbrev pub no_priority : Bytes
no_priority = ascii "00000000"

abbrev pub no_not_before : TimeText → Bytes
no_not_before text = text.format zero_time

abbrev pub floor_text : Bool → Option Bytes
floor_text true = some not_before_floor_value
floor_text false = none

-- The metadata that Queue writes, over that of another kind.
abbrev pub stored : TimeText → Metadata → Options → Metadata
stored text m o = record m {
  priority = some (format_padded o.priority);
  not_before = some (text.format o.not_before);
  not_before_floor = floor_text o.not_before_floor;
}

unfoldable pub is_floor : Metadata → Bool
unfolding same
is_floor m = same (value_at m.not_before_floor) not_before_floor_value

-- Always the highest priority, as text.
merge_priority : Metadata → Metadata → Metadata × Bool
merge_priority m incoming =
    let higher = record m { priority = some (value_at incoming.priority) } in
    elim m.priority [
      | none ↦ (higher, true)
      | some p ↦ if less p (value_at incoming.priority) then (higher, true) else (m, false)
    ]

-- The `switch`, by whether the incoming and the existing not-before are floors.
merge_not_before : Bool → Bool → Metadata → Metadata → Metadata × Bool
merge_not_before true true m incoming =
    if less (value_at m.not_before) (value_at incoming.not_before)
    then (record m { not_before = some (value_at incoming.not_before) }, true)
    else (m, false)
merge_not_before true false m incoming = (
  record m {
    not_before = some (value_at incoming.not_before);
    not_before_floor = some not_before_floor_value;
  },
  true,
)
merge_not_before false true m incoming = (m, false)
merge_not_before false false m incoming =
    if is_some m.not_before && less (value_at incoming.not_before) (value_at m.not_before)
    then (record m { not_before = some (value_at incoming.not_before) }, true)
    else (m, false)

-- updateMetadata, between its two calls: the metadata of the existing object with the incoming one
-- merged into it, and whether it has to be written.
unfoldable pub merge_metadata : Metadata → Metadata → Metadata × Bool
unfolding merge_priority merge_not_before is_floor
merge_metadata m incoming =
    let (m', raised) = merge_priority m incoming in
    let (m'', moved) = merge_not_before (is_floor incoming) (is_floor m') m' incoming in
    (m'', raised || moved)
