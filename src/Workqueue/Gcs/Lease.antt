-- ===== src/Workqueue/Gcs/Lease.antt =====
-- workqueue/gcs/gcs.go: refreshLease, which extends the lease, and the heartbeat that calls it at each tick.
pub mod Decides
pub mod Safety
use go_driftlessaf.Base.{
  get_or, none, [], ℕ, zero, suc, Bool, true, false, some, if◌then◌else◌, min_ℤ,
}
use go_driftlessaf.Clock.{Instant, Duration, add_time, before}
use go_driftlessaf.Workqueue.Gcs.Bucket.{
  in_progress, Metadata, no_metadata, Attrs, if_generation, Answer, ok, failed, update, clock, done,
  wait, Program, ret, call, ◌>>=◌, lost_ownership,
}
use go_driftlessaf.Workqueue.Gcs.Metadata.{TimeText}
use go_driftlessaf.Workqueue.Gcs.Owned.{InProgressKey, lease_end}

-- The result: the new expiration, with the key that the update gave; the loss of the lease; or
-- neither, where the fuel ends.
pub data Renewal : Type 0 where
  kept : Instant → InProgressKey → Renewal
  lost unfinished : Renewal

-- RefreshInterval and heartbeatRetryInterval.
pub record Pacing : Type 0 where
  pub refresh : Duration
  pub heartbeat_retry : Duration

-- The retry pacing is clamped to the refresh interval.
abbrev pub retry_interval : Pacing → Duration
retry_interval p = min_ℤ p.heartbeat_retry p.refresh

-- The update sets the expiration alone.
abbrev pub lease_metadata : TimeText → Instant → Metadata
lease_metadata text expiry = record no_metadata { expiration = some (text.format expiry) }

-- After an update with the new expiration: `more` is the next round.
refreshed :
    Pacing → Instant → InProgressKey → Instant → Program Renewal → Answer Attrs → Program Renewal
refreshed p expiry o new_expiry more (ok a) = ret (kept new_expiry (record o { attrs = a }))
refreshed p expiry o new_expiry more (failed e) = call done λ stop.
    let retry = call clock λ now.
      let pause = call (wait (retry_interval p)) λ stop'. if stop' then ret lost else more in
      if before (add_time now (retry_interval p)) expiry then pause else ret lost in
    if stop then ret lost else if lost_ownership e then ret lost else retry

-- refreshLease, for the lease that ends at `expiry`. The time limit of an update is one more way for
-- it to fail.
unfoldable pub refresh_lease : ℕ → TimeText → Pacing → Instant → InProgressKey → Program Renewal
unfolding refreshed lease_end
refresh_lease zero text p expiry o = ret unfinished
refresh_lease (suc n) text p expiry o = call done λ stop.
    let renew = call clock λ now.
      let new_expiry = lease_end p.refresh now in
      call
        (update (in_progress o.key) (if_generation o.attrs.generation)
          (lease_metadata text new_expiry))
        (refreshed p expiry o new_expiry (refresh_lease n text p expiry o)) in
    if stop then ret lost else renew

-- The end of the lease that the heartbeat starts with: what Start stamped, or else three refresh
-- intervals from now.
unfoldable pub first_expiry : TimeText → Pacing → InProgressKey → Instant → Instant
unfolding lease_end
first_expiry text p o now =
    let own = lease_end p.refresh now in
    elim o.attrs.metadata.expiration [
      | none ↦ get_or (text.parse []) own
      | some t ↦ get_or (text.parse t) own
    ]

-- The loop of startHeartbeat, for a number of ticks: it waits for the ticker or the end of the
-- context, and refreshes the lease until it is lost. It ends with the key as it then is, whose
-- context is canceled unless the ticks have run out.
unfoldable pub heartbeat :
    ℕ → ℕ → TimeText → Pacing → Instant → InProgressKey → Program InProgressKey
heartbeat zero fuel text p expiry o = ret o
heartbeat (suc ticks) fuel text p expiry o = call (wait p.refresh) λ stop.
    let beat = refresh_lease fuel text p expiry o >>= λ r. elim r [
      | kept e o' ↦ heartbeat ticks fuel text p e o'
      | _ ↦ ret o
    ] in
    if stop then ret o else beat
