-- ===== src/Workqueue/Inmem/Enumerate.antt =====
-- Enumerate of workqueue/inmem/inmem.go: the loop that sorts and cuts at every key, against the list
-- of all the keys that are ready.
use mathlib.Core.List.{Perm}
use Prim.Native.Nat.{min}
use go_driftlessaf.Base.{
  ℕ, ◌≡◌, refl, ◌∙◌, ap, String, true, false, List, [], ◌∷◌, ◌++◌, arith, if◌then◌else◌, length,
  take, drop, take-append-drop, length-take, length-sort, sort, Ordered, sort-perm, sort-Ordered,
  push_all, push_bounded, push_all-eq-take-sort, Bool-cases, inl, inr,
}
use go_driftlessaf.Clock.{Instant, before}
use go_driftlessaf.Workqueue.Inmem.{
  Wq, Items, QueuedKey, runs_before, queued_key, collect, collect_all, enumerate,
}

runs_before_asym : (a b : QueuedKey) → runs_before a b ≡ true → runs_before b a ≡ false
unfolding runs_before
runs_before_asym a b h = ground arith

runs_before_below :
    (a b c : QueuedKey) → runs_before a b ≡ true → runs_before c b ≡ false → runs_before c a ≡ false
unfolding runs_before
runs_before_below a b c h k = ground arith

-- The keys whose not-before has come, in the order in which the map is walked.
unfoldable pub ready : (String → Instant) → Items → List QueuedKey
unfolding queued_key
ready clock [] = []
ready clock ((k, qi) ∷ rest) =
    if before (clock k) qi.options.not_before
    then ready clock rest
    else queued_key k qi ∷ ready clock rest

collect_all-push_all :
    (limit : ℕ) (clock : String → Instant) (qd : List QueuedKey) (q : Items)
    → collect_all limit clock qd q ≡ push_all runs_before limit qd (ready clock q)
unfolding collect_all collect push_all ready
collect_all-push_all limit clock qd [] = refl
collect_all-push_all limit clock qd ((k, qi) ∷ rest) =
    elim (Bool-cases (before (clock k) qi.options.not_before)) [
      | inl e ↦ rw e (collect_all-push_all limit clock qd rest)
      | inr e ↦ rw e (
          collect_all-push_all limit clock (push_bounded runs_before limit qd (queued_key k qi))
            rest)
    ]

-- The queued keys that Enumerate returns are the first `limit` of the ready keys in sorted order.
pub enumerate-take-sort :
    (clock : String → Instant) (w : Wq)
    → (enumerate clock w).1 ≡ take w.limit (sort runs_before (ready clock w.queue))
unfolding enumerate
enumerate-take-sort clock w =
    collect_all-push_all w.limit clock [] w.queue
    ∙ push_all-eq-take-sort runs_before runs_before_asym runs_before_below w.limit
        (ready clock w.queue)

-- Enumerate returns as many of the ready keys as the limit allows, in the order in which they run,
-- and leaves out only keys that run before none of them.
pub enumerate_best :
    (clock : String → Instant) (w : Wq)
    → let top = (enumerate clock w).1 in
      (rest : List QueuedKey) × Perm (top ++ rest) (ready clock w.queue)
      × Ordered runs_before (top ++ rest)
      × (length top ≡ min w.limit (length (ready clock w.queue)))
enumerate_best clock w =
    let all = sort runs_before (ready clock w.queue) in
    let split : (enumerate clock w).1 ++ drop w.limit all ≡ all =
      ap (λ qs. qs ++ drop w.limit all) (enumerate-take-sort clock w)
      ∙ take-append-drop w.limit all in
    (
      drop w.limit all,
      rw split (sort-perm runs_before (ready clock w.queue)),
      rw split (sort-Ordered runs_before runs_before_asym runs_before_below (ready clock w.queue)),
      ap length (enumerate-take-sort clock w)
          ∙ length-take w.limit all
          ∙ ap (min w.limit) (length-sort runs_before (ready clock w.queue)),
    )
