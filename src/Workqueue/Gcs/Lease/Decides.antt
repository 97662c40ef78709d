-- ===== src/Workqueue/Gcs/Lease/Decides.antt =====
-- refreshLease of workqueue/gcs/gcs.go comes to an end while the clock goes on.
use go_driftlessaf.Base.{
  ℕ, zero, suc, ◌*◌, ◌≡◌, refl, Bool, true, false, ◌&&◌, Bool-cases, inl, inr, ℤ, pos, ◌+ℤ◌, ◌≤ℤ◌,
  ◌<ℤ◌, leb_ℤ, arith, int_laws, +ℤ_parts, ltb_ℤ, ◌<◌, ◌≢◌,
}
use mathlib.Core.Path.{subst}
use go_driftlessaf.Clock.{Instant, add_time, before}
use go_driftlessaf.Workqueue.Gcs.Bucket.{
  ok, failed, Request, Reply, clock, wait, Program, ret, call, lost_ownership,
}
use go_driftlessaf.Workqueue.Gcs.Reasoning.{Obeys, Obeys-mono}
use go_driftlessaf.Workqueue.Gcs.Metadata.{TimeText}
use go_driftlessaf.Workqueue.Gcs.Owned.{InProgressKey}
use go_driftlessaf.Workqueue.Gcs.Lease.{
  Renewal, unfinished, Pacing, retry_interval, refreshed, refresh_lease,
}

-- The last time that the clock showed, the time that it has to show from then on, and whether it
-- always did: it never goes back, and after a wait it shows that the wait has passed.
pub record Pace : Type 0 where
  pub now : Instant
  pub due : Instant
  pub honest : Bool

abbrev pub tick : Pace → (r : Request) → Reply r → Pace
tick g clock x = record { now = x; due = x; honest = g.honest && leb_ℤ g.due x }
tick g (wait d) false = record g { due = add_time g.now d }
tick g r x = g

abbrev pub AnyRequest : Pace → Request → Type 0
AnyRequest g r = Unit {0}

-- A clock that was wrong once stays so.
wrong_clock :
    {A : Type 0} (p : Program A) (g : Pace)
    → g.honest ≡ false
    → Obeys AnyRequest tick (λ h r. h.honest ≡ false) g p
wrong_clock (ret a) g h = h
wrong_clock (call r k) g h = (tt, λ x. wrong_clock (k x) (tick g r x) (tick_wrong r x))
  where
    tick_wrong : (r' : Request) (x' : Reply r') → (tick g r' x').honest ≡ false
    tick_wrong clock x' = ground arith
    tick_wrong (wait d) false = h
    tick_wrong r' x' = h

ltb_ℤ→lt : (a b : ℤ) → ltb_ℤ a b ≡ true → a <ℤ b
ltb_ℤ→lt a b h = ground arith

both_honest : (x : Bool) (a b c : ℤ) → (x && leb_ℤ a b) && leb_ℤ b c ≡ true → (a ≤ℤ b) × (b ≤ℤ c)
both_honest x a b c h = ground arith

later_sum :
    (retry n : ℕ) (a b c d : ℤ)
    → a ≤ℤ b
    → b ≤ℤ c
    → (c +ℤ pos retry) +ℤ pos (n * retry) ≤ℤ d
    → a +ℤ pos (suc n * retry) ≤ℤ d
later_sum retry n a b c d h k l = omega (
  arith,
  +ℤ_parts c (pos retry),
  +ℤ_parts (c +ℤ pos retry) (pos (n * retry)),
  +ℤ_parts a (pos (suc n * retry)),
)

module _ (text : TimeText) (p : Pacing) (expiry : Instant) (o : InProgressKey) (retry : ℕ)
    (interval : retry_interval p ≡ pos retry) where
  -- Where the fuel ends under an honest clock, each round took its wait, and the last one ends before
  -- the lease.
  abbrev Spent : ℕ → Instant → Pace → Renewal → Type 0
  Spent n from h r =
      r ≡ unfinished → h.honest ≡ true → (from +ℤ pos (n * retry) ≤ℤ h.due) × (h.due <ℤ expiry)

  later :
      (n : ℕ) (g : Pace) (now now' end : Instant)
      → (g.honest && leb_ℤ g.due now) && leb_ℤ now now' ≡ true
      → add_time now' (retry_interval p) +ℤ pos (n * retry) ≤ℤ end
      → g.due +ℤ pos (suc n * retry) ≤ℤ end
  unfolding add_time
  later n g now now' end right h =
      let ab = both_honest g.honest g.due now now' right in
      later_sum retry n g.due now now' end ab.0 ab.1
        (subst (λ d. (now' +ℤ d) +ℤ pos (n * retry) ≤ℤ end) interval h)

  -- The rounds after a wait, from what they come to on their own.
  next_round :
      (n : ℕ) (g : Pace) (now now' : Instant)
      → add_time now' (retry_interval p) <ℤ expiry
      → ((h : Pace)
          → (n ≡ 0 → h.due <ℤ expiry)
          → Obeys AnyRequest tick (Spent n h.due) h (refresh_lease n text p expiry o))
      → Obeys AnyRequest tick
          (Spent (suc n) g.due)
          (record {
            now = now';
            due = add_time now' (retry_interval p);
            honest = (g.honest && leb_ℤ g.due now) && leb_ℤ now now';
          })
          (refresh_lease n text p expiry o)
  next_round n g now now' time ih =
      let honest = (g.honest && leb_ℤ g.due now) && leb_ℤ now now' in
      let h : Pace = record {
        now = now';
        due = add_time now' (retry_interval p);
        honest = honest;
      } in
      let rounds = refresh_lease n text p expiry o in
      elim (Bool-cases honest) [
        | inr wrong ↦
            Obeys-mono AnyRequest tick (λ u r. u.honest ≡ false) (Spent (suc n) g.due)
              (λ u r e _ right. cc) rounds h (wrong_clock rounds h wrong)
        | inl right ↦
            Obeys-mono AnyRequest tick (Spent n h.due) (Spent (suc n) g.due)
              (λ u r s e ok. (later n g now now' u.due right (s e ok).0, (s e ok).1)) rounds h
              (ih h (λ _. time))
      ]

  refresh_rounds :
      (n : ℕ) (g : Pace)
      → (n ≡ 0 → g.due <ℤ expiry)
      → Obeys AnyRequest tick (Spent n g.due) g (refresh_lease n text p expiry o)
  unfolding refresh_lease refreshed
  refresh_rounds zero g start = λ _ _. (omega (int_laws), start refl)
  refresh_rounds (suc n) g start = (
    tt,
    elim [
      | true ↦ λ e. cc
      | false ↦ (
        tt,
        λ now. (
          tt,
          elim [
            | ok a ↦ λ e. cc
            | failed e ↦ (
              tt,
              elim [
                | true ↦ λ e'. cc
                | false ↦ elim (Bool-cases (lost_ownership e)) [
                  | inl gone ↦ rw gone (λ e'. cc)
                  | inr still ↦ rw still (
                    tt,
                    λ now'. elim (Bool-cases (before (add_time now' (retry_interval p)) expiry)) [
                      | inr late ↦ rw late (λ e'. cc)
                      | inl time ↦ rw time (
                        tt,
                        elim [
                          | true ↦ λ e'. cc
                          | false ↦
                              next_round n g now now'
                                (ltb_ℤ→lt (add_time now' (retry_interval p)) expiry time)
                                (refresh_rounds n)
                        ],
                      )
                    ],
                  )
                ]
              ],
            )
          ],
        ),
      )
    ],
  )

  beyond :
      (n : ℕ) (from due : ℤ)
      → expiry ≤ℤ from +ℤ pos (n * retry)
      → (from +ℤ pos (n * retry) ≤ℤ due) × (due <ℤ expiry)
      → ⊥
  beyond n from due h k = omega arith

  -- While the clock is honest, fuel for the retries that fit before the lease ends is enough: with so
  -- much of it refreshLease keeps or loses the lease, whatever the bucket answers.
  pub refresh_lease_decides :
      (fuel : ℕ) (g : Pace)
      → 0 < fuel
      → expiry ≤ℤ g.due +ℤ pos (fuel * retry)
      → Obeys AnyRequest tick
          (λ h r. h.honest ≡ true → r ≢ unfinished)
          g
          (refresh_lease fuel text p expiry o)
  refresh_lease_decides fuel g some_fuel enough =
      Obeys-mono AnyRequest tick (Spent fuel g.due) _
        (λ h r s ok e. beyond fuel g.due h.due enough (s e ok)) (refresh_lease fuel text p expiry o)
        g (refresh_rounds fuel g (λ z. absurd (omega arith)))
