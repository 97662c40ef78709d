-- ===== src/Workqueue/Gcs/Listing/Best.antt =====
-- Enumerate of workqueue/gcs/gcs.go: the loop that sorts and cuts at every queued object, against
-- the list of all the keys that are ready.
use mathlib.Core.List.{Perm, append-nil, append_assoc}
use Prim.Native.Nat.{min}
use go_driftlessaf.Base.{
  ◌≡◌, refl, ◌∙◌, sym, ap, String, true, false, List, [], ◌∷◌, ◌++◌, arith, if◌then◌else◌, length,
  ascii, less_asym, less_below, take, drop, take-append-drop, length-take, length-sort, sort,
  Ordered, sort-perm, sort-Ordered, push_all, push_all-eq-take-sort, Bool-cases, inl, inr, none,
}
use go_driftlessaf.Clock.{Instant}
use go_driftlessaf.Workqueue.Gcs.Bucket.{queued, in_progress, dead_letter, ObjectName, Attrs, ok}
use go_driftlessaf.Workqueue.Gcs.Metadata.{TimeText}
use go_driftlessaf.Workqueue.Gcs.Owned.{QueuedKey, InProgressKey}
use go_driftlessaf.Workqueue.Gcs.Listing.{
  Lister, Found, nothing_found, is_early, runs_before, waiting, observed, collect, visit, visit_all,
  enumerate,
}

runs_before_asym : (a b : QueuedKey) → runs_before a b ≡ true → runs_before b a ≡ false
unfolding runs_before
runs_before_asym a b h = ground (arith, less_asym (ascii a.key) (ascii b.key))

runs_before_below :
    (a b c : QueuedKey) → runs_before a b ≡ true → runs_before c b ≡ false → runs_before c a ≡ false
unfolding runs_before
runs_before_below a b c h k = ground (arith, less_below (ascii a.key) (ascii b.key) (ascii c.key))

module _ (w : Lister) (text : TimeText) (clock : String → Instant) where
  ready_at : ObjectName → Attrs → List QueuedKey → List QueuedKey
  ready_at (queued k) a rest =
      if is_early text (clock k) a.metadata then rest else waiting w k a ∷ rest
  ready_at (in_progress k) a rest = rest
  ready_at (dead_letter k) a rest = rest

  -- The queued keys whose not-before has come, in the order in which the bucket lists them.
  unfoldable pub ready : List Attrs → List QueuedKey
  unfolding ready_at
  ready [] = []
  ready (a ∷ rest) = ready_at a.name a (ready rest)

  leased_at : ObjectName → Attrs → List InProgressKey → List InProgressKey
  leased_at (in_progress k) a rest = observed k a ∷ rest
  leased_at (queued k) a rest = rest
  leased_at (dead_letter k) a rest = rest

  -- The keys in progress.
  unfoldable pub leased : List Attrs → List InProgressKey
  unfolding leased_at
  leased [] = []
  leased (a ∷ rest) = leased_at a.name a (leased rest)

  -- What one object adds, and what those after it add.
  visit_lists :
      (f : Found) (n : ObjectName) (a : Attrs) (more : List QueuedKey) (held : List InProgressKey)
      → (push_all runs_before w.limit (visit w text clock f n a).qd more
          ≡ push_all runs_before w.limit f.qd (ready_at n a more))
        × ((visit w text clock f n a).wip ++ held ≡ f.wip ++ leased_at n a held)
  unfolding visit collect push_all ready_at leased_at
  visit_lists f (queued k) a more held = elim (Bool-cases (is_early text (clock k) a.metadata)) [
    | inl early ↦ rw early (refl, refl)
    | inr due ↦ rw due (refl, refl)
  ]
  visit_lists f (in_progress k) a more held = (refl, append_assoc f.wip (observed k a ∷ []) held)
  visit_lists f (dead_letter k) a more held = (refl, refl)

  visit_all-lists :
      (f : Found) (objects : List Attrs)
      → ((visit_all w text clock f objects).qd ≡ push_all runs_before w.limit f.qd (ready objects))
        × ((visit_all w text clock f objects).wip ≡ f.wip ++ leased objects)
  unfolding visit_all ready leased push_all
  visit_all-lists f [] = (refl, sym (append-nil f.wip))
  visit_all-lists f (a ∷ rest) =
      let ih = visit_all-lists (visit w text clock f a.name a) rest in
      let step = visit_lists f a.name a (ready rest) (leased rest) in (ih.0 ∙ step.0, ih.1 ∙ step.1)

  enumerate-take-sort :
      (objects : List Attrs)
      → (visit_all w text clock nothing_found objects).qd
        ≡ take w.limit (sort runs_before (ready objects))
  enumerate-take-sort objects =
      (visit_all-lists nothing_found objects).0
      ∙ push_all-eq-take-sort runs_before runs_before_asym runs_before_below w.limit (ready objects)

  -- If the bucket's listing ends without an error, Enumerate returns every key in progress, and as
  -- many of the queued keys whose not-before has come as the limit allows, by priority, creation and
  -- name, leaving out only keys that run before none of them.
  pub enumerate_objects_best :
      (objects : List Attrs)
      → (found : Found) × (rest : List QueuedKey) × (enumerate w text clock objects none ≡ ok found)
        × (found.wip ≡ leased objects)
        × Perm (found.qd ++ rest) (ready objects)
        × Ordered runs_before (found.qd ++ rest)
        × (length found.qd ≡ min w.limit (length (ready objects)))
  unfolding enumerate
  enumerate_objects_best objects =
      let all = sort runs_before (ready objects) in
      let split : (visit_all w text clock nothing_found objects).qd ++ drop w.limit all ≡ all =
        ap (λ qs. qs ++ drop w.limit all) (enumerate-take-sort objects)
        ∙ take-append-drop w.limit all in
      (
        visit_all w text clock nothing_found objects,
        drop w.limit all,
        refl,
        (visit_all-lists nothing_found objects).1,
        rw split (sort-perm runs_before (ready objects)),
        rw split (sort-Ordered runs_before runs_before_asym runs_before_below (ready objects)),
        ap length (enumerate-take-sort objects)
            ∙ length-take w.limit all
            ∙ ap (min w.limit) (length-sort runs_before (ready objects)),
      )
