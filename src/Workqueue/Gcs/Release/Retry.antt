-- ===== src/Workqueue/Gcs/Release/Retry.antt =====
-- deleteWithRetry of workqueue/gcs/gcs.go under a rule on what is sent.
use go_driftlessaf.Base.{
  ℕ, zero, suc, ◌+◌, true, false, Option, none, some, inl, inr, Bool-cases, pos,
}
use go_driftlessaf.Clock.{Duration}
use go_driftlessaf.Workqueue.Gcs.Bucket.{
  ObjectName, Conditions, Fault, canceled, ok, failed, Request, Reply, draw, wait, delete,
  too_many_requests,
}
use go_driftlessaf.Workqueue.Gcs.Reasoning.{Obeys}
use go_driftlessaf.Workqueue.Gcs.Release.{delete_rounds, delete_with_retry, delete_delay}

-- Where an invariant `I` holds, the delete may be sent, the waits keep it, and each answer of the
-- delete that ends the loop gives `P`.
pub record RetryRule {G : Type 0} (allowed : G → Request → Type 0)
    (next : G → (r : Request) → Reply r → G) (I : G → Type 0) (P : G → Option Fault → Type 0)
    (n : ObjectName) (c : Conditions) : Type 0 where
  pub sends : (g : G) → I g → allowed g (delete n c)
  pub draws : (g : G) (k : ℕ) → I g → allowed g (draw k)
  pub waits : (g : G) (d : Duration) → I g → allowed g (wait d)
  pub drawn : (g : G) (k x : ℕ) → I g → I (next g (draw k) x)
  pub waited : (g : G) (d : Duration) → I g → I (next g (wait d) false)
  pub throttled : (g : G) (e : Fault) → I g → I (next g (delete n c) (failed e))
  pub deleted : (g : G) → I g → P (next g (delete n c) (ok tt)) none
  pub refused : (g : G) (e : Fault) → I g → P (next g (delete n c) (failed e)) (some e)
  pub stopped : (g : G) (d : Duration) → I g → P (next g (wait d) true) (some canceled)

module _ {G : Type 0} {allowed : G → Request → Type 0} {next : G → (r : Request) → Reply r → G}
    {I : G → Type 0} {P : G → Option Fault → Type 0} {n : ObjectName} {c : Conditions}
    (rule : RetryRule allowed next I P n c) where
  delete_rounds-Obeys :
      (left attempt : ℕ) (g : G) → I g → Obeys allowed next P g (delete_rounds left attempt n c)
  unfolding delete_rounds
  delete_rounds-Obeys zero attempt g s =
      (rule.sends g s, elim [ ok _ ↦ rule.deleted g s | failed e ↦ rule.refused g e s ])
  delete_rounds-Obeys (suc left) attempt g s = (
    rule.sends g s,
    elim [
      | ok _ ↦ rule.deleted g s
      | failed e ↦ elim (Bool-cases (too_many_requests e)) [
        | inr other ↦ rw other (rule.refused g e s)
        | inl throttled ↦
            let d = delete_delay attempt in
            let h = next g (delete n c) (failed e) in
            let hs = rule.throttled g e s in
            rw throttled (
              rule.draws h d hs,
              λ x.
                  let u = next h (draw d) x in
                  let us = rule.drawn h d x hs in
                  (
                    rule.waits u (pos (d + x)) us,
                    elim [
                      | true ↦ rule.stopped u (pos (d + x)) us
                      | false ↦
                          delete_rounds-Obeys left (attempt + 1) (next u (wait (pos (d + x))) false)
                            (rule.waited u (pos (d + x)) us)
                    ],
                  ),
            )
      ]
    ],
  )

  pub delete_with_retry-Obeys : (g : G) → I g → Obeys allowed next P g (delete_with_retry n c)
  unfolding delete_with_retry
  delete_with_retry-Obeys g s = delete_rounds-Obeys 10 0 g s
