-- ===== src/Breaker/Probe.antt =====
-- The half-open state of breaker/breaker.go.
use go_driftlessaf.Base.{
  ℕ, ◌⊎◌, String, ◌≡◌, refl, ap, List, [], ◌∷◌, arith, str_eq, eq_iff, eq_refl, lookup-insert,
  lookup-remove, Bool-cases, inl, inr, true, false, pos, ltb_ℤ,
}
use go_driftlessaf.Clock.{Instant, add_time, sub_time, before}
use go_driftlessaf.Breaker.{
  Breaker, Verdict, circuit, allow, record_success, record_failure, backoff,
}
use go_driftlessaf.Breaker.History.{Op, allows, fails, succeeds, run_op, run_ops, run_op-tuning}

-- Calls that leave the key of a probe unresolved, the attempts among them made before its window
-- ends.
abbrev pub Pending : String → Instant → List Op → Type 0
Pending k end [] = Unit
Pending k end (allows j now r ∷ ops) =
    ((str_eq j k ≡ false) ⊎ (before now end ≡ true)) × Pending k end ops
Pending k end (fails j now r ∷ ops) = (str_eq j k ≡ false) × Pending k end ops
Pending k end (succeeds j ∷ ops) = (str_eq j k ≡ false) × Pending k end ops

-- The circuit of the key is open, and its next attempt may not proceed before `end`.
record Open (k : String) (end : Instant) (b : Breaker) : Type 0 where
  tripped : ltb_ℤ (pos (circuit k b).failures) b.threshold ≡ false
  until : (circuit k b).retry_at ≡ end

denied :
    (k : String) (end now : Instant) (r : ℕ) (b : Breaker)
    → Open k end b
    → before now end ≡ true
    → allow k now r b ≡ (record { allowed = false; wait = sub_time end now }, b)
unfolding allow
denied k end now r b o early = rw (o.tripped, o.until, early)

allow_frame :
    (k j : String) (now : Instant) (r : ℕ) (b : Breaker)
    → str_eq j k ≡ false
    → circuit k (allow j now r b).1 ≡ circuit k b
unfolding allow
allow_frame k j now r b other = ground (
  arith,
  lookup-insert j k
      (record {
        failures = (circuit j b).failures;
        retry_at = add_time now (backoff b (circuit j b).failures r);
      })
      b.circuits,
)

fail_frame :
    (k j : String) (now : Instant) (r : ℕ) (b : Breaker)
    → str_eq j k ≡ false
    → circuit k (record_failure j now r b).1 ≡ circuit k b
unfolding record_failure
fail_frame k j now r b other = rw (lookup-insert j k _ b.circuits, other)

succeed_frame :
    (k j : String) (b : Breaker) → str_eq j k ≡ false → circuit k (record_success j b) ≡ circuit k b
unfolding record_success
succeed_frame k j b other = rw (lookup-remove j k b.circuits, other)

Open-eq :
    (k : String) (end : Instant) (a b : Breaker)
    → circuit k a ≡ circuit k b
    → a.threshold ≡ b.threshold
    → Open k end b
    → Open k end a
Open-eq k end a b c t o = record { tripped = rw (c, t) o.tripped; until = rw c o.until }

pending_step :
    (k : String) (end now : Instant) (r : ℕ) (j : String) (b : Breaker)
    → (str_eq j k ≡ false) ⊎ (before now end ≡ true)
    → Open k end b
    → Open k end (allow j now r b).1
unfolding run_op
pending_step k end now r j b (inl other) o =
    Open-eq k end (allow j now r b).1 b (allow_frame k j now r b other)
      (run_op-tuning (allows j now r) b).threshold o
pending_step k end now r j b (inr early) o = elim (Bool-cases (str_eq j k)) [
  | inl same ↦ rw ((eq_iff j k).0 same) (rw (denied k end now r b o early) o)
  | inr other ↦
      Open-eq k end (allow j now r b).1 b (allow_frame k j now r b other)
        (run_op-tuning (allows j now r) b).threshold o
]

Pending-Open :
    (k : String) (end : Instant) (ops : List Op) (b : Breaker)
    → Pending k end ops
    → Open k end b
    → Open k end (run_ops ops b)
unfolding run_ops run_op
Pending-Open k end [] b p o = o
Pending-Open k end (allows j now r ∷ ops) b p o =
    Pending-Open k end ops (allow j now r b).1 p.1 (pending_step k end now r j b p.0 o)
Pending-Open k end (fails j now r ∷ ops) b p o =
    Pending-Open k end ops (record_failure j now r b).1 p.1 (
      Open-eq k end (record_failure j now r b).1 b (fail_frame k j now r b p.0)
        (run_op-tuning (fails j now r) b).threshold o)
Pending-Open k end (succeeds j ∷ ops) b p o = Pending-Open k end ops (record_success j b) p.1 (
    Open-eq k end (record_success j b) b (succeed_frame k j b p.0)
      (run_op-tuning (succeeds j) b).threshold o)

probe_Open :
    (k : String) (now : Instant) (r : ℕ) (b : Breaker)
    → ltb_ℤ (pos (circuit k b).failures) b.threshold ≡ false
    → before now (circuit k b).retry_at ≡ false
    → (allow k now r b ≡ (record { allowed = true; wait = pos 0 }, (allow k now r b).1))
      × Open k (add_time now (backoff b (circuit k b).failures r)) (allow k now r b).1
unfolding allow
probe_Open k now r b tripped due =
    rw (tripped, due)
      (
        refl,
        record {
          tripped = rw (lookup-insert k k _ b.circuits, eq_refl k) tripped;
          until = rw (lookup-insert k k _ b.circuits, eq_refl k);
        },
      )

-- Once a tripped key's wait is over, one attempt is let through, and from then on every attempt on
-- the key before the end of a new backoff window is refused, whatever attempts are made and
-- whatever happens to other keys, until the probe is resolved by a success or a failure of the key.
pub one_probe :
    (k : String) (now later : Instant) (r r' : ℕ) (ops : List Op) (b : Breaker)
    → ltb_ℤ (pos (circuit k b).failures) b.threshold ≡ false
    → before now (circuit k b).retry_at ≡ false
    → Pending k (add_time now (backoff b (circuit k b).failures r)) ops
    → before later (add_time now (backoff b (circuit k b).failures r)) ≡ true
    → ((allow k now r b).0.allowed ≡ true)
      × ((allow k later r' (run_ops ops (allow k now r b).1)).0.allowed ≡ false)
one_probe k now later r r' ops b tripped due pending early =
    let end = add_time now (backoff b (circuit k b).failures r) in
    let (granted, open_now) = probe_Open k now r b tripped due in
    (
      ap (λ (v : Verdict × Breaker). v.0.allowed) granted,
      ap (λ (v : Verdict × Breaker). v.0.allowed)
          (denied k end later r' (run_ops ops (allow k now r b).1)
            (Pending-Open k end ops (allow k now r b).1 pending open_now) early),
    )
