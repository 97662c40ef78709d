-- ===== src/Workqueue/Gcs/Requeue/Safety.antt =====
-- RequeueWithOptions of workqueue/gcs/gcs.go as a whole, its loop and its first read included.
use go_driftlessaf.Base.{ℕ, zero, suc, ◌≡◌, refl, inl, inr, none, some, Bool-cases, Option-cases}
use go_driftlessaf.Workqueue.Options.{Options, Tuning}
use go_driftlessaf.Workqueue.Gcs.Bucket.{
  in_progress, Metadata, Attrs, Conditions, if_generation, Answer, ok, failed, read, Program, ret,
  is_not_found,
}
use go_driftlessaf.Workqueue.Gcs.Reasoning.{Obeys, Obeys-seq}
use go_driftlessaf.Workqueue.Gcs.Metadata.{TimeText}
use go_driftlessaf.Workqueue.Gcs.Enqueue.{Round, finished, again}
use go_driftlessaf.Workqueue.Gcs.Owned.{InProgressKey, with_metadata}
use go_driftlessaf.Workqueue.Gcs.Requeue.{
  requeue_copied, requeue_delay, requeue_move, requeue_once, requeue_rounds, requeue_next,
  requeue_read, requeue_with_options, requeue_metadata,
}
use go_driftlessaf.Workqueue.Gcs.Requeue.Secured.{
  Known, nothing_known, learn, MaySend, Settled, changed, requeue_copied-Obeys,
}

-- The key with another map of metadata; the rule is the same for it.
abbrev carrying : InProgressKey → Metadata → InProgressKey
carrying o m = record o { attrs = with_metadata o.attrs m }

-- A round leaves a key that differs in its metadata only.
abbrev RoundDone : InProgressKey → Known → Round × InProgressKey → Type 0
RoundDone o g s = Settled g s.0 × ((m : Metadata) × (s.1 ≡ carrying o m))

abbrev pub Ended : Known → Round × InProgressKey → Type 0
Ended g s = Settled g s.0

module _ (text : TimeText) (t : Tuning) (opts : Options) (o : InProgressKey) (c : Conditions)
    (pinned : c.generation_match ≡ some o.attrs.generation) where
  requeue_move-Obeys :
      (old m : Metadata)
      → m.expiration ≡ none
      → m.owner ≡ none
      → (g : Known)
      → Obeys (MaySend o) (learn o) (RoundDone o) g (requeue_move (carrying o old) c m)
  unfolding requeue_move
  requeue_move-Obeys old m lease owner g = (
    (refl, refl, refl, refl, lease, owner),
    λ a.
        Obeys-seq (MaySend o) (learn o) Settled (RoundDone o)
          (requeue_copied (carrying o old) c m a) (λ r. ret (r, carrying o m)) _
          (requeue_copied-Obeys (carrying o old) c pinned m g a) (λ h r s. (s, (m, refl))),
  )

  requeue_once-Obeys :
      (old : Metadata) (g : Known)
      → Obeys (MaySend o) (learn o) (RoundDone o) g (requeue_once text t opts c (carrying o old))
  unfolding requeue_once requeue_metadata
  requeue_once-Obeys old g = (
    tt,
    λ now. elim (Option-cases (requeue_delay t old opts)) [
      | inl stays ↦ rw stays (requeue_move-Obeys old _ refl refl g)
      | inr (d, waits) ↦ rw waits (tt, λ start. requeue_move-Obeys old _ refl refl g)
    ],
  )

  -- What the loop does after a round, where it goes on in the same way.
  requeue_next-Obeys :
      (more : InProgressKey → Program (Round × InProgressKey))
      → ((m : Metadata) (g : Known) → Obeys (MaySend o) (learn o) Ended g (more (carrying o m)))
      → (g : Known) (r : Round) (k : InProgressKey) → RoundDone o g (r, k)
      → Obeys (MaySend o) (learn o) Ended g (requeue_next more r k)
  unfolding requeue_next
  requeue_next-Obeys more ih g (finished r) k done = done.0
  requeue_next-Obeys more ih g again k (_, (m, e)) = rw e (ih m g)

  requeue_rounds-Obeys :
      (n : ℕ) (old : Metadata) (g : Known)
      → Obeys (MaySend o) (learn o) Ended g (requeue_rounds n text t opts c (carrying o old))
  unfolding requeue_rounds
  requeue_rounds-Obeys zero old g = λ h. cc
  requeue_rounds-Obeys (suc n) old g =
      Obeys-seq (MaySend o) (learn o) (RoundDone o) Ended
        (requeue_once text t opts c (carrying o old)) _ g (requeue_once-Obeys old g)
        (λ h s done.
          requeue_next-Obeys (requeue_rounds n text t opts c) (requeue_rounds-Obeys n) h s.0 s.1
            done)

module _ (text : TimeText) (t : Tuning) (opts : Options) (o : InProgressKey) where
  requeue_read-Obeys :
      (fuel : ℕ) (a : Answer Attrs)
      → Obeys
          (MaySend o)
          (learn o)
          Ended
          (learn o nothing_known (read (in_progress o.key)) a)
          (requeue_read fuel text t opts o a)
  unfolding requeue_read
  requeue_read-Obeys fuel (failed e) = elim (Bool-cases (is_not_found e)) [
    | inl gone ↦ rw gone (λ _. refl)
    | inr other ↦ rw other (λ h. cc)
  ]
  requeue_read-Obeys fuel (ok a) = elim (Bool-cases (changed o a)) [
    | inl lost ↦ rw lost (λ _. refl)
    | inr same ↦ rw same (requeue_rounds-Obeys text t opts o _ refl fuel o.attrs.metadata _)
  ]

  -- Whatever the bucket answers and whatever others do in between, RequeueWithOptions sends only
  -- reads, the copy of the leased generation to a queued object that is not there, without lease
  -- and owner, updates of the queued object, and deletes of the leased generation; a delete is sent
  -- only after the queued object was seen or left with the metadata of the requeue, alone or merged
  -- into what was there; and it ends without an error only if that delete was done, or the object
  -- in progress was found to be another's.
  pub requeue_with_options_secured :
      (fuel : ℕ)
      → Obeys (MaySend o) (learn o) Ended nothing_known (requeue_with_options fuel text t opts o)
  unfolding requeue_with_options
  requeue_with_options_secured fuel = elim (Bool-cases o.held) [
    | inl owner ↦ simp owner (
        requeue_rounds-Obeys text t opts o (if_generation o.attrs.generation) refl fuel
          o.attrs.metadata nothing_known)
    | inr observer ↦ simp observer (tt, requeue_read-Obeys fuel)
  ]
