-- ===== src/Breaker/History.antt =====
-- Sequences of calls on the breaker of breaker/breaker.go, in the order in which its mutex admits
-- them.
use go_driftlessaf.Base.{ℕ, String, ◌≡◌, refl, ◌∙◌, List, [], ◌∷◌, arith}
use go_driftlessaf.Clock.{Instant}
use go_driftlessaf.Breaker.{Breaker, allow, record_success, record_failure}

pub data Op : Type 0 where
  allows fails : String → Instant → ℕ → Op
  succeeds : String → Op

unfoldable pub run_op : Op → Breaker → Breaker
run_op (allows k now r) b = (allow k now r b).1
run_op (fails k now r) b = (record_failure k now r b).1
run_op (succeeds k) b = record_success k b

unfoldable pub run_ops : List Op → Breaker → Breaker
run_ops [] b = b
run_ops (op ∷ ops) b = run_ops ops (run_op op b)

-- The tuning never changes.
pub record SameTuning (a b : Breaker) : Type 0 where
  pub threshold : a.threshold ≡ b.threshold
  pub base_delay : a.base_delay ≡ b.base_delay
  pub max_delay : a.max_delay ≡ b.max_delay

pub run_op-tuning : (op : Op) (b : Breaker) → SameTuning (run_op op b) b
unfolding run_op allow record_success record_failure
run_op-tuning (allows k now r) b = ground arith
run_op-tuning (fails k now r) b = ground arith
run_op-tuning (succeeds k) b = ground arith

pub run_ops-tuning : (ops : List Op) (b : Breaker) → SameTuning (run_ops ops b) b
unfolding run_ops
run_ops-tuning [] b = record { threshold = refl; base_delay = refl; max_delay = refl }
run_ops-tuning (op ∷ ops) b =
    let rest = run_ops-tuning ops (run_op op b) in
    let here = run_op-tuning op b in
    record {
      threshold = rest.threshold ∙ here.threshold;
      base_delay = rest.base_delay ∙ here.base_delay;
      max_delay = rest.max_delay ∙ here.max_delay;
    }
