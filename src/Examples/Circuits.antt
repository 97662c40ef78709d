-- ===== src/Examples/Circuits.antt =====
-- The circuit breaker of breaker/breaker.go on concrete histories.
use go_driftlessaf.Base.{◌≡◌, refl, inr, true, false, List, [], ◌∷◌, pos, lookup, ◌+ℤ◌, to_int64}
use go_driftlessaf.Clock.{add_time, jitter_add, times_int64}
use go_driftlessaf.Breaker.{Breaker, new, allow, backoff}
use go_driftlessaf.Breaker.History.{Op, allows, fails, succeeds, run_ops}
use go_driftlessaf.Breaker.Probe.{one_probe}

-- The circuit of "a" is open, and its wait ends at 100.
abbrev tripped_a : Breaker
tripped_a = record new { circuits = ("a", record { failures = 5; retry_at = pos 100 }) ∷ [] }

abbrev meanwhile : List Op
meanwhile = fails "b" (pos 210) 0 ∷ allows "a" (pos 250) 4 ∷ []

one_probe_example :
    ((allow "a" (pos 200) 9 tripped_a).0.allowed ≡ true)
    × ((allow "a" (pos 300) 3 (run_ops meanwhile (allow "a" (pos 200) 9 tripped_a).1)).0.allowed
        ≡ false)
unfolding lookup backoff add_time ◌+ℤ◌ jitter_add times_int64 to_int64
one_probe_example =
    one_probe "a" (pos 200) (pos 300) 9 3 meanwhile tripped_a refl refl (refl, (inr refl, tt)) refl

abbrev mixed : List Op
mixed = fails "a" (pos 1) 0 ∷ fails "b" (pos 2) 0 ∷ succeeds "a" ∷ fails "a" (pos 3) 0 ∷ []
