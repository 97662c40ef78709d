-- ===== src/Workqueue/Gcs/Enqueue.antt =====
-- workqueue/gcs/gcs.go: Queue and updateMetadata. The prefixes that fmt.Errorf puts before an error
-- are left out: errors.Is looks through them.
pub mod Update
pub mod Recorded
pub mod Rounds
use go_driftlessaf.Base.{ℕ, zero, suc, String, Bool, true, false, Option, none, some, if◌then◌else◌}
use go_driftlessaf.Workqueue.Options.{Options}
use go_driftlessaf.Workqueue.Gcs.Bucket.{
  queued, Metadata, no_metadata, Attrs, no_conditions, if_absent, Fault, Answer, ok, failed,
  fault_of, Written, broken, closed, read, write, update, Program, ret, call, ◌>>=◌,
  precondition_failed, is_not_exist,
}
use go_driftlessaf.Workqueue.Gcs.Metadata.{TimeText, stored, merge_metadata}

write_merged : String → Metadata × Bool → Program (Option Fault)
write_merged key (m, false) = ret none
write_merged key (m, true) = call (update (queued key) no_conditions m) (λ a. ret (fault_of a))

update_found : String → Metadata → Answer Attrs → Program (Option Fault)
unfolding write_merged
update_found key incoming (failed e) = ret (some e)
update_found key incoming (ok a) = write_merged key (merge_metadata a.metadata incoming)

-- updateMetadata
unfoldable pub update_metadata : String → Metadata → Program (Option Fault)
unfolding update_found
update_metadata key incoming = call (read (queued key)) (update_found key incoming)

-- How a round of Queue or of requeueOnce ends: with the result of the call, or with another round.
pub data Round : Type 0 where
  finished : Option Fault → Round
  again : Round

-- The error of updateMetadata, if any: a twin that is gone by then asks for another round.
abbrev pub merge_outcome : Fault → Round
merge_outcome e = if is_not_exist e then again else finished (some e)

abbrev pub queue_merged : Option Fault → Round
queue_merged none = finished none
queue_merged (some e) = merge_outcome e

queue_written : String → Metadata → Written → Program Round
queue_written key m (broken e) = ret (finished (some e))
queue_written key m (closed (ok _)) = ret (finished none)
queue_written key m (closed (failed e)) =
    let merge = update_metadata key m >>= λ r. ret (queue_merged r) in
    if precondition_failed e then merge else ret (finished (some e))

-- Queue, up to its call of itself.
unfoldable pub queue_once : TimeText → String → Options → Program Round
unfolding queue_written
queue_once text key opts =
    let m = stored text no_metadata opts in
    call (write (queued key) if_absent m) (queue_written key m)

queue_next : Program Round → Round → Program Round
queue_next more (finished r) = ret (finished r)
queue_next more again = more

-- Queue calls itself as long as its rounds ask for it; after the rounds that the fuel allows the
-- result is `again`.
unfoldable pub queue : ℕ → TimeText → String → Options → Program Round
unfolding queue_next
queue zero text key opts = ret again
queue (suc n) text key opts = queue_once text key opts >>= λ r. queue_next (queue n text key opts) r
