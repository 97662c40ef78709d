-- ===== src/Workqueue/Gcs/Release/Safety.antt =====
-- Complete and Deadletter of workqueue/gcs/gcs.go: what they send, whatever the bucket answers and
-- whatever others do in between.
use go_driftlessaf.Base.{
  ◌≡◌, refl, ◌⊎◌, inl, inr, Bool, true, false, ◌||◌, Bool-cases, Option, none, some, arith,
}
use go_driftlessaf.Workqueue.Gcs.Bucket.{
  ObjectName, in_progress, dead_letter, Conditions, if_generation, Fault, Answer, ok, failed,
  Request, Reply, read, write, update, copy, delete, is_not_found, lost_ownership,
  precondition_failed,
}
use go_driftlessaf.Workqueue.Gcs.Reasoning.{Obeys, Obeys-seq}
use go_driftlessaf.Workqueue.Gcs.Metadata.{TimeText}
use go_driftlessaf.Workqueue.Gcs.Owned.{InProgressKey}
use go_driftlessaf.Workqueue.Gcs.Release.{
  delete_with_retry, unless_lost, delete_owned, complete, deadletter, deadletter_copied,
  deadletter_metadata,
}
use go_driftlessaf.Workqueue.Gcs.Release.Retry.{RetryRule, delete_with_retry-Obeys}

-- Whether the dead-letter object is written, and whether the object in progress is deleted or found
-- to be another's.
pub record Parting : Type 0 where
  pub buried : Bool
  pub over : Bool

abbrev pub at_first : Parting
at_first = record { buried = false; over = false }

abbrev deleted_from : Parting → ObjectName → Answer (Unit {0}) → Parting
deleted_from g (in_progress k) (ok a) = record g { over = true }
deleted_from g (in_progress k) (failed e) = record g { over = g.over || lost_ownership e }
deleted_from g n a = g

abbrev pub part : Parting → (r : Request) → Reply r → Parting
part g (copy s q t c m) (ok a) = record g { buried = true }
part g (copy s q t c m) (failed e) = record g { over = g.over || is_not_found e }
part g (delete n c) a = deleted_from g n a
part g r x = g

-- The delete of an object in progress is pinned to the leased generation.
abbrev pub Pinned : InProgressKey → ObjectName → Conditions → Type 0
Pinned o n c = (n ≡ in_progress o.key) × (c.generation_match ≡ some o.attrs.generation)

-- Deadletter copies the leased generation to the dead-letter object, without lease and owner, and
-- deletes that generation once it is copied.
abbrev pub MayBury : InProgressKey → Parting → Request → Type 0
MayBury o g (copy s q t c m) =
    (s ≡ in_progress o.key)
    × (q ≡ some o.attrs.generation)
    × (t ≡ dead_letter o.key)
    × (m.expiration ≡ none)
    × (m.owner ≡ none)
    × (m.attempts ≡ o.attrs.metadata.attempts)
MayBury o g (delete n c) = Pinned o n c × (g.buried ≡ true)
MayBury o g (read n) = ⊥
MayBury o g (write n c m) = ⊥
MayBury o g (update n c m) = ⊥
MayBury o g r = Unit {0}

-- Complete deletes the dead-letter object and the leased generation, and sends nothing else.
abbrev pub MayComplete : InProgressKey → Parting → Request → Type 0
MayComplete o g (delete n c) = (n ≡ dead_letter o.key) ⊎ Pinned o n c
MayComplete o g (copy s q t c m) = ⊥
MayComplete o g (read n) = ⊥
MayComplete o g (write n c m) = ⊥
MayComplete o g (update n c m) = ⊥
MayComplete o g r = Unit {0}

-- Without an error the object in progress is deleted, or another's.
abbrev pub Parted : Parting → Option Fault → Type 0
Parted g r = r ≡ none → g.over ≡ true

Tried : Parting → Option Fault → Type 0
Tried g r = unless_lost r ≡ none → g.over ≡ true

module _ (o : InProgressKey) where
  bury_rule :
      RetryRule
        (MayBury o)
        part
        (λ g. g.buried ≡ true)
        Tried
        (in_progress o.key)
        (if_generation o.attrs.generation)
  unfolding Tried lost_ownership is_not_found precondition_failed
  bury_rule = record {
    sends = λ g s. ((refl, refl), s);
    draws = λ g k s. tt;
    waits = λ g d s. tt;
    drawn = λ g k x s. s;
    waited = λ g d s. s;
    throttled = λ g e s. s;
    deleted = λ g s. λ _. refl;
    refused = λ g e s. ground arith;
    stopped = λ g d s. cc;
  }

  complete_rule :
      RetryRule
        (MayComplete o)
        part
        (λ g. Unit {0})
        Tried
        (in_progress o.key)
        (if_generation o.attrs.generation)
  unfolding Tried lost_ownership is_not_found precondition_failed
  complete_rule = record {
    sends = λ g s. inr (refl, refl);
    draws = λ g k s. tt;
    waits = λ g d s. tt;
    drawn = λ g k x s. s;
    waited = λ g d s. s;
    throttled = λ g e s. s;
    deleted = λ g s. λ _. refl;
    refused = λ g e s. ground arith;
    stopped = λ g d s. cc;
  }

  -- Whatever the bucket answers and whatever others do in between, Complete deletes the dead-letter
  -- object and, pinned to the leased generation, the object in progress, sends nothing else to the
  -- bucket, and ends without an error only if the latter was deleted or found to be another's.
  pub complete_secured : Obeys (MayComplete o) part Parted at_first (complete o)
  unfolding complete delete_owned Tried
  complete_secured = (
    inl refl,
    λ _.
        Obeys-seq (MayComplete o) part Tried Parted
          (delete_with_retry (in_progress o.key) (if_generation o.attrs.generation)) _ _
          (delete_with_retry-Obeys complete_rule _ tt) (λ h r t. t),
  )

  -- Whatever the bucket answers and whatever others do in between, Deadletter deletes the object in
  -- progress only after its leased generation was copied to the dead-letter object, its attempts
  -- with it, pins the delete to that generation, and ends without an error only if the object was
  -- deleted or found to be another's.
  pub deadletter_secured :
      (text : TimeText) → Obeys (MayBury o) part Parted at_first (deadletter text o)
  unfolding deadletter deadletter_copied deadletter_metadata delete_owned Tried
  deadletter_secured text = (
    tt,
    λ now. (
      (refl, refl, refl, refl, refl, refl),
      elim [
        | ok a ↦
            Obeys-seq (MayBury o) part Tried Parted
              (delete_with_retry (in_progress o.key) (if_generation o.attrs.generation)) _ _
              (delete_with_retry-Obeys bury_rule _ refl) (λ h r t. t)
        | failed e ↦ elim (Bool-cases (is_not_found e)) [
          | inl gone ↦ rw gone (λ _. refl)
          | inr other ↦ rw other (λ h. cc)
        ]
      ],
    ),
  )
