-- ===== src/Workqueue/Gcs/Requeue/Secured.antt =====
-- RequeueWithOptions of workqueue/gcs/gcs.go: what it sends, whatever the bucket answers and
-- whatever others do in between.
use go_driftlessaf.Base.{
  ◌≡◌, refl, ◌⊎◌, inl, inr, Bool, true, false, not, ◌||◌, ◌==◌, Option, none, some, sym, arith,
  Bool-cases,
}
use go_driftlessaf.Workqueue.Gcs.Bucket.{
  if_absent, queued, in_progress, Metadata, Attrs, Conditions, Fault, Answer, ok, failed, Request,
  Reply, write, read, update, copy, delete, is_not_found, precondition_failed, lost_ownership,
}
use go_driftlessaf.Workqueue.Gcs.Reasoning.{Obeys, Obeys-seq}
use go_driftlessaf.Workqueue.Gcs.Metadata.{merge_metadata}
use go_driftlessaf.Workqueue.Gcs.Enqueue.Update.{UpdateRule, update_metadata-Obeys}
use go_driftlessaf.Workqueue.Gcs.Enqueue.{update_metadata, Round, finished}
use go_driftlessaf.Workqueue.Gcs.Owned.{InProgressKey}
use go_driftlessaf.Workqueue.Gcs.Release.{delete_with_retry, unless_lost}
use go_driftlessaf.Workqueue.Gcs.Release.Retry.{RetryRule, delete_with_retry-Obeys}
use go_driftlessaf.Workqueue.Gcs.Requeue.{requeue_delete, requeue_merged, requeue_copied}

-- What is known of the bucket: the metadata of the last copy that was asked for, the metadata with
-- which the queued object was last seen or left, and whether the object in progress is deleted or
-- another's.
pub record Known : Type 0 where
  pub asked : Option Metadata
  pub twin : Option Metadata
  pub over : Bool

abbrev pub nothing_known : Known
nothing_known = record { asked = none; twin = none; over = false }

-- The observed object is another generation or was refreshed.
abbrev pub changed : InProgressKey → Attrs → Bool
changed o a =
    not (a.generation == o.attrs.generation) || not (a.metageneration == o.attrs.metageneration)

abbrev pub learn : InProgressKey → Known → (r : Request) → Reply r → Known
learn o g (copy s q t c m) (ok a) = record g { asked = some m; twin = some m }
learn o g (copy s q t c m) (failed e) = record {
  asked = some m;
  twin = none;
  over = g.over || is_not_found e;
}
learn o g (read (queued k)) (ok a) = record g { twin = some a.metadata }
learn o g (read (in_progress k)) (ok a) = record g { over = g.over || changed o a }
learn o g (read (in_progress k)) (failed e) = record g { over = g.over || is_not_found e }
learn o g (update n c m) (ok a) = record g { twin = some m }
learn o g (delete n c) (ok a) = record g { over = true }
learn o g (delete n c) (failed e) = record g { over = g.over || lost_ownership e }
learn o g r x = g

-- The queued object has the metadata of the requeue, alone or merged into what it had.
abbrev pub Secured : Known → Type 0
Secured g =
    (m : Metadata) × (w : Metadata) × (g.asked ≡ some m)
    × (g.twin ≡ some w)
    × ((w ≡ m) ⊎ ((old : Metadata) × (w ≡ (merge_metadata old m).0)))

-- What may be sent: reads; the copy of the leased generation to a queued object that is not there,
-- with no lease and no owner; an update of the queued object; and, once that is secured, the delete
-- of the leased generation.
abbrev pub MaySend : InProgressKey → Known → Request → Type 0
MaySend o g (delete n c) =
    (n ≡ in_progress o.key) × (c.generation_match ≡ some o.attrs.generation) × Secured g
MaySend o g (copy s q t c m) =
    (s ≡ in_progress o.key)
    × (q ≡ some o.attrs.generation)
    × (t ≡ queued o.key)
    × (c.does_not_exist ≡ true)
    × (m.expiration ≡ none)
    × (m.owner ≡ none)
MaySend o g (update n c m) = n ≡ queued o.key
MaySend o g (write n c m) = ⊥
MaySend o g r = Unit {0}

-- A requeue that ends without an error has deleted the object, or found that it is another's.
abbrev pub Settled : Known → Round → Type 0
Settled g r = r ≡ finished none → g.over ≡ true

-- What the last delete tells.
Deleted : Known → Option Fault → Type 0
Deleted g r = unless_lost r ≡ none → g.over ≡ true

delete_rule :
    (o : InProgressKey) (c : Conditions)
    → c.generation_match ≡ some o.attrs.generation
    → RetryRule (MaySend o) (learn o) Secured Deleted (in_progress o.key) c
unfolding Deleted lost_ownership is_not_found precondition_failed
delete_rule o c pinned = record {
  sends = λ g s. (refl, pinned, s);
  draws = λ g k s. tt;
  waits = λ g d s. tt;
  drawn = λ g k x s. s;
  waited = λ g d s. s;
  throttled = λ g e s. s;
  deleted = λ g s. λ _. refl;
  refused = λ g e s. ground arith;
  stopped = λ g d s. cc;
}

requeue_delete-Obeys :
    (o : InProgressKey) (c : Conditions)
    → c.generation_match ≡ some o.attrs.generation
    → (g : Known) → Secured g
    → Obeys (MaySend o) (learn o) Settled g (requeue_delete o c)
unfolding requeue_delete Deleted
requeue_delete-Obeys o c pinned g s =
    Obeys-seq (MaySend o) (learn o) Deleted Settled (delete_with_retry (in_progress o.key) c) _ g
      (delete_with_retry-Obeys (delete_rule o c pinned) g s) (λ h r d e. d (cc e))

-- What updateMetadata leaves, for the metadata m that it merges in.
Merged : Metadata → Known → Option Fault → Type 0
Merged m g r = r ≡ none → Secured g

update_rule :
    (o : InProgressKey) (m : Metadata) (g : Known)
    → g.asked ≡ some m
    → UpdateRule (MaySend o) (learn o) (Merged m) o.key m g
unfolding Merged
update_rule o m g asked = record {
  reads = tt;
  missing = λ e r. cc;
  idle = λ a e r. (m, a.metadata, asked, refl, inr (a.metadata, sym e));
  sends = λ a. refl;
  updated = λ a b r. (m, (merge_metadata a.metadata m).0, asked, refl, inr (a.metadata, refl));
  refused = λ a e r. cc;
}

requeue_merged-Obeys :
    (o : InProgressKey) (c : Conditions)
    → c.generation_match ≡ some o.attrs.generation
    → (g : Known) (r : Option Fault) → (r ≡ none → Secured g)
    → Obeys (MaySend o) (learn o) Settled g (requeue_merged o c r)
unfolding requeue_merged
requeue_merged-Obeys o c pinned g none s = requeue_delete-Obeys o c pinned g (s refl)
requeue_merged-Obeys o c pinned g (some e) s = λ h. ground arith

pub requeue_copied-Obeys :
    (o : InProgressKey) (c : Conditions)
    → c.generation_match ≡ some o.attrs.generation
    → (m : Metadata) (g : Known) (a : Answer Attrs)
    → Obeys
        (MaySend o)
        (learn o)
        Settled
        (learn o g
          (copy (in_progress o.key) (some o.attrs.generation) (queued o.key) if_absent m)
          a)
        (requeue_copied o c m a)
unfolding requeue_copied Merged
requeue_copied-Obeys o c pinned m g (ok a) =
    requeue_delete-Obeys o c pinned _ (m, m, refl, refl, inl refl)
requeue_copied-Obeys o c pinned m g (failed e) = elim (Bool-cases (is_not_found e)) [
  | inl gone ↦ rw gone (λ _. ground arith)
  | inr there ↦ elim (Bool-cases (precondition_failed e)) [
    | inr other ↦ rw (there, other) (λ h. cc)
    | inl exists ↦
        rw (there, exists)
          (Obeys-seq (MaySend o) (learn o) (Merged m) Settled (update_metadata o.key m)
            (requeue_merged o c) _ (update_metadata-Obeys (update_rule o m _ refl))
            (requeue_merged-Obeys o c pinned))
  ]
]
