-- ===== src/Workqueue/Gcs/Lease/Safety.antt =====
-- refreshLease of workqueue/gcs/gcs.go: what it sends, whatever the bucket answers.
use go_driftlessaf.Base.{ℕ, zero, suc, ◌≡◌, refl, true, false, Bool-cases, inl, inr, Option, some}
use go_driftlessaf.Clock.{Instant, add_time, before}
use go_driftlessaf.Workqueue.Gcs.Bucket.{
  in_progress, Metadata, Attrs, ok, failed, Request, Reply, update, clock, done, wait,
  lost_ownership,
}
use go_driftlessaf.Workqueue.Gcs.Reasoning.{Obeys}
use go_driftlessaf.Workqueue.Gcs.Metadata.{TimeText}
use go_driftlessaf.Workqueue.Gcs.Owned.{InProgressKey, lease_end}
use go_driftlessaf.Workqueue.Gcs.Lease.{
  Renewal, kept, lost, unfinished, Pacing, retry_interval, lease_metadata, refreshed, refresh_lease,
}

-- The last time that the clock showed, and the last update that the bucket confirmed.
pub record Beat : Type 0 where
  pub now : Instant
  pub stamped : Option Metadata
  pub given : Option Attrs

abbrev pub listen : Beat → (r : Request) → Reply r → Beat
listen g clock x = record g { now = x }
listen g (update n c m) (ok a) = record g { stamped = some m; given = some a }
listen g r x = g

module _ (text : TimeText) (p : Pacing) (expiry : Instant) (o : InProgressKey) where
  -- An update is of the leased generation, and sets the expiration alone, three refresh intervals
  -- from now; a wait ends before the lease does.
  abbrev pub MayRefresh : Beat → Request → Type 0
  MayRefresh g (update n c m) =
      (n ≡ in_progress o.key)
      × (c.generation_match ≡ some o.attrs.generation)
      × (m ≡ lease_metadata text (lease_end p.refresh g.now))
  MayRefresh g (wait d) = before (add_time g.now d) expiry ≡ true
  MayRefresh g clock = Unit {0}
  MayRefresh g done = Unit {0}
  MayRefresh g r = ⊥

  -- A lease that is kept ends when the object says so, in the metadata that the bucket confirmed.
  abbrev pub Renewed : Beat → Renewal → Type 0
  Renewed g (kept e k) =
      (g.stamped ≡ some (lease_metadata text e)) × (g.given ≡ some k.attrs) × (k.key ≡ o.key)
  Renewed g lost = Unit {0}
  Renewed g unfinished = Unit {0}

  -- Whatever the bucket answers, refreshLease updates only the leased generation, and of its metadata
  -- only the expiration; it never waits up to the end of the lease or beyond; and where it keeps the
  -- lease, it reports the expiration that the bucket confirmed, with the object that it gave.
  pub refresh_lease_safe :
      (fuel : ℕ) (g : Beat) → Obeys MayRefresh listen Renewed g (refresh_lease fuel text p expiry o)
  unfolding refresh_lease refreshed
  refresh_lease_safe zero g = tt
  refresh_lease_safe (suc n) g = (
    tt,
    elim [
      | true ↦ tt
      | false ↦ (
        tt,
        λ now. (
          (refl, refl, refl),
          elim [
            | ok a ↦ (refl, refl, refl)
            | failed e ↦ (
              tt,
              elim [
                | true ↦ tt
                | false ↦ elim (Bool-cases (lost_ownership e)) [
                  | inl gone ↦ rw gone tt
                  | inr still ↦ rw still (
                    tt,
                    λ now'. elim (Bool-cases (before (add_time now' (retry_interval p)) expiry)) [
                      | inr late ↦ rw late tt
                      | inl time ↦ rw time (
                        time,
                        elim [ true ↦ tt | false ↦ refresh_lease_safe n (record g { now = now' }) ],
                      )
                    ],
                  )
                ]
              ],
            )
          ],
        ),
      )
    ],
  )
