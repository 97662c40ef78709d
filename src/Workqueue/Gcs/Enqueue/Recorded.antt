-- ===== src/Workqueue/Gcs/Enqueue/Recorded.antt =====
-- Queue of workqueue/gcs/gcs.go: what it sends and what its success means, whatever the bucket
-- answers and whatever others do in between.
use go_driftlessaf.Base.{
  ℕ, zero, suc, String, ◌≡◌, refl, sym, ◌⊎◌, inl, inr, true, Bool-cases, Option, none, some, arith,
}
use go_driftlessaf.Workqueue.Options.{Options}
use go_driftlessaf.Workqueue.Gcs.Bucket.{
  queued, Metadata, no_metadata, Fault, ok, failed, Written, broken, closed, Request, Reply, read,
  update, write, if_absent, Program, precondition_failed,
}
use go_driftlessaf.Workqueue.Gcs.Reasoning.{Obeys, Obeys-seq}
use go_driftlessaf.Workqueue.Gcs.Metadata.{TimeText, stored, merge_metadata}
use go_driftlessaf.Workqueue.Gcs.Enqueue.{
  update_metadata, Round, finished, again, queue_merged, queue_written, queue_once, queue,
  queue_next,
}
use go_driftlessaf.Workqueue.Gcs.Enqueue.Update.{UpdateRule, update_metadata-Obeys}

-- The metadata with which the queued object was last seen or left.
abbrev pub note : Option Metadata → (r : Request) → Reply r → Option Metadata
note g (write n c m) (closed (ok _)) = some m
note g (read n) (ok a) = some a.metadata
note g (update n c m) (ok a) = some m
note g r x = g

-- An enqueue writes and reads the queued object of its key, and nothing else; it creates the object
-- only where there is none.
abbrev pub MayEnqueue : String → Option Metadata → Request → Type 0
MayEnqueue key g (write n c m) = (n ≡ queued key) × (c.does_not_exist ≡ true)
MayEnqueue key g (read n) = n ≡ queued key
MayEnqueue key g (update n c m) = n ≡ queued key
MayEnqueue key g r = ⊥

-- The object has the options of the enqueue, alone or merged into what was there.
abbrev pub Recorded : Metadata → Option Metadata → Type 0
Recorded m g =
    (w : Metadata) × (g ≡ some w) × ((w ≡ m) ⊎ ((old : Metadata) × (w ≡ (merge_metadata old m).0)))

abbrev pub Accepted : Metadata → Option Metadata → Round → Type 0
Accepted m g r = r ≡ finished none → Recorded m g

Updated : Metadata → Option Metadata → Option Fault → Type 0
Updated m g r = r ≡ none → Recorded m g

update_rule :
    (key : String) (m : Metadata) (g : Option Metadata)
    → UpdateRule (MayEnqueue key) note (Updated m) key m g
unfolding Updated
update_rule key m g = record {
  reads = refl;
  missing = λ e r. cc;
  idle = λ a e r. (a.metadata, refl, inr (a.metadata, sym e));
  sends = λ a. refl;
  updated = λ a b r. ((merge_metadata a.metadata m).0, refl, inr (a.metadata, refl));
  refused = λ a e r. cc;
}

queue_merged_accepts :
    (m : Metadata) (g : Option Metadata) (r : Option Fault)
    → Updated m g r
    → Accepted m g (queue_merged r)
unfolding Updated
queue_merged_accepts m g none u = λ _. u refl
queue_merged_accepts m g (some e) u = λ h. ground arith

queue_written-Obeys :
    (key : String) (m : Metadata) (g : Option Metadata) (a : Written)
    → Obeys
        (MayEnqueue key)
        note
        (Accepted m)
        (note g (write (queued key) if_absent m) a)
        (queue_written key m a)
unfolding queue_written
queue_written-Obeys key m g (broken e) = λ h. cc
queue_written-Obeys key m g (closed (ok _)) = λ _. (m, refl, inl refl)
queue_written-Obeys key m g (closed (failed e)) = elim (Bool-cases (precondition_failed e)) [
  | inr other ↦ rw other (λ h. cc)
  | inl exists ↦ rw exists (
      Obeys-seq (MayEnqueue key) note (Updated m) (Accepted m) (update_metadata key m) _ g
        (update_metadata-Obeys (update_rule key m g)) (queue_merged_accepts m))
]

queue_next-Obeys :
    (key : String) (m : Metadata) (more : Program Round) (g : Option Metadata) (r : Round)
    → Obeys (MayEnqueue key) note (Accepted m) g more
    → Accepted m g r
    → Obeys (MayEnqueue key) note (Accepted m) g (queue_next more r)
unfolding queue_next
queue_next-Obeys key m more g (finished r) go done = done
queue_next-Obeys key m more g again go done = go

-- Whatever the bucket answers and whatever others do in between, Queue touches only the queued
-- object of its key and creates it only where there is none; and it returns without an error only
-- after that object was seen or left with the options of the enqueue, alone or merged by
-- updateMetadata into what was there.
pub queue_recorded :
    (fuel : ℕ) (text : TimeText) (key : String) (opts : Options) (g : Option Metadata)
    → Obeys
        (MayEnqueue key)
        note
        (Accepted (stored text no_metadata opts))
        g
        (queue fuel text key opts)
unfolding queue queue_once
queue_recorded zero text key opts g = λ h. cc
queue_recorded (suc n) text key opts g =
    let m = stored text no_metadata opts in
    Obeys-seq (MayEnqueue key) note (Accepted m) (Accepted m) (queue_once text key opts) _ g
      ((refl, refl), queue_written-Obeys key m g)
      (λ h r done.
        queue_next-Obeys key m (queue n text key opts) h r (queue_recorded n text key opts h) done)
