-- ===== src/Workqueue/Gcs/Enqueue/Update.antt =====
-- updateMetadata of workqueue/gcs/gcs.go under a rule on what is sent.
use go_driftlessaf.Base.{String, ◌≡◌, refl, ap, Bool, true, false, Option, none, some}
use go_driftlessaf.Workqueue.Gcs.Bucket.{
  queued, Metadata, Attrs, no_conditions, Fault, ok, failed, Request, Reply, read, update,
}
use go_driftlessaf.Workqueue.Gcs.Reasoning.{Obeys}
use go_driftlessaf.Workqueue.Gcs.Metadata.{merge_metadata}
use go_driftlessaf.Workqueue.Gcs.Metadata.Merge.{merge_metadata_idle}
use go_driftlessaf.Workqueue.Gcs.Enqueue.{write_merged, update_metadata}

module _ {G : Type 0} (allowed : G → Request → Type 0) (next : G → (r : Request) → Reply r → G)
    (P : G → Option Fault → Type 0) (key : String) (m : Metadata) (g : G) where
  abbrev seen : Attrs → G
  seen a = next g (read (queued key)) (ok a)

  abbrev merged : Attrs → Request
  merged a = update (queued key) no_conditions (merge_metadata a.metadata m).0

  -- The read and the update may be sent from `g` on, and each way to end gives `P`.
  pub record UpdateRule : Type 0 where
    pub reads : allowed g (read (queued key))
    pub missing : (e : Fault) → P (next g (read (queued key)) (failed e)) (some e)
    pub idle : (a : Attrs) → (merge_metadata a.metadata m).0 ≡ a.metadata → P (seen a) none
    pub sends : (a : Attrs) → allowed (seen a) (merged a)
    pub updated : (a b : Attrs) → P (next (seen a) (merged a) (ok b)) none
    pub refused : (a : Attrs) (e : Fault) → P (next (seen a) (merged a) (failed e)) (some e)

module _ {G : Type 0} {allowed : G → Request → Type 0} {next : G → (r : Request) → Reply r → G}
    {P : G → Option Fault → Type 0} {key : String} {m : Metadata} {g : G}
    (rule : UpdateRule allowed next P key m g) where
  write_merged-Obeys :
      (a : Attrs) (v : Metadata × Bool)
      → merge_metadata a.metadata m ≡ v
      → Obeys allowed next P (next g (read (queued key)) (ok a)) (write_merged key v)
  unfolding write_merged
  write_merged-Obeys a (w, false) e =
      rule.idle a (merge_metadata_idle a.metadata m (ap (λ (p : Metadata × Bool). p.1) e))
  write_merged-Obeys a (w, true) e =
      let same : (merge_metadata a.metadata m).0 ≡ w = ap (λ (p : Metadata × Bool). p.0) e in
      rw (← same) (rule.sends a, elim [ ok b ↦ rule.updated a b | failed f ↦ rule.refused a f ])

  pub update_metadata-Obeys : Obeys allowed next P g (update_metadata key m)
  unfolding update_metadata
  update_metadata-Obeys = (
    rule.reads,
    elim [
      | failed e ↦ rule.missing e
      | ok a ↦ write_merged-Obeys a (merge_metadata a.metadata m) refl
    ],
  )
