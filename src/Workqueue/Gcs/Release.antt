-- ===== src/Workqueue/Gcs/Release.antt =====
-- workqueue/gcs/gcs.go: deleteWithRetry, Complete and Deadletter.
pub mod Retry
pub mod Safety
use Prim.Native.Nat.{min}
use go_driftlessaf.Base.{
  true, false, ℕ, zero, suc, ◌+◌, ◌*◌, ◌^◌, Option, none, some, if◌then◌else◌, pos,
}
use go_driftlessaf.Clock.{Instant}
use go_driftlessaf.Workqueue.Gcs.Bucket.{
  ObjectName, in_progress, dead_letter, Metadata, Attrs, Conditions, no_conditions, if_generation,
  Fault, canceled, Answer, ok, failed, copy, delete, clock, draw, wait, Program, ret, call, ◌>>=◌,
  is_not_found, lost_ownership, too_many_requests,
}
use go_driftlessaf.Workqueue.Gcs.Metadata.{TimeText}
use go_driftlessaf.Workqueue.Gcs.Owned.{InProgressKey}

-- `min(baseDelay<<attempt, maxDelay)`, in nanoseconds.
unfoldable pub delete_delay : ℕ → ℕ
delete_delay attempt = min (500000000 * 2 ^ attempt) 30000000000

-- The loop, with the rounds that are left, and the last attempt after it.
delete_rounds : ℕ → ℕ → ObjectName → Conditions → Program (Option Fault)
unfolding delete_delay
delete_rounds zero attempt name c =
    call (delete name c) λ a. ret (elim a [ ok _ ↦ none | failed e ↦ some e ])
delete_rounds (suc left) attempt name c = call (delete name c) λ a. elim a [
  | ok _ ↦ ret none
  | failed e ↦
      let pause = call (draw (delete_delay attempt)) λ jitter.
        call (wait (pos (delete_delay attempt + jitter))) λ stop. elim stop [
          | true ↦ ret (some canceled)
          | false ↦ delete_rounds left (attempt + 1) name c
        ] in
      if too_many_requests e then pause else ret (some e)
]

-- deleteWithRetry
unfoldable pub delete_with_retry : ObjectName → Conditions → Program (Option Fault)
unfolding delete_rounds
delete_with_retry name c = delete_rounds 10 0 name c

-- What a handler makes of the error of its last delete: a key that another attempt owns is left.
abbrev pub unless_lost : Option Fault → Option Fault
unless_lost none = none
unless_lost (some e) = if lost_ownership e then none else some e

delete_owned : InProgressKey → Program (Option Fault)
delete_owned o = delete_with_retry (in_progress o.key) (if_generation o.attrs.generation) >>= λ r.
    ret (unless_lost r)

-- Complete. The delete of the dead-letter object is an attempt: its error is only logged.
unfoldable pub complete : InProgressKey → Program (Option Fault)
unfolding delete_owned
complete o = call (delete (dead_letter o.key) no_conditions) λ _. delete_owned o

-- The metadata of the dead-letter object.
unfoldable pub deadletter_metadata : TimeText → Instant → Metadata → Metadata
deadletter_metadata text now m = record m {
  expiration = none;
  owner = none;
  failed_time = some (text.format now);
}

deadletter_copied : InProgressKey → Answer Attrs → Program (Option Fault)
unfolding delete_owned
deadletter_copied o (ok _) = delete_owned o
deadletter_copied o (failed e) = if is_not_found e then ret none else ret (some e)

-- Deadletter.
unfoldable pub deadletter : TimeText → InProgressKey → Program (Option Fault)
unfolding deadletter_copied
deadletter text o = call clock λ now.
    call
      (copy (in_progress o.key) (some o.attrs.generation) (dead_letter o.key) no_conditions
        (deadletter_metadata text now o.attrs.metadata))
      (deadletter_copied o)
