-- ===== src/Workqueue/Dispatcher/Launch.antt =====
-- Which keys HandleAsync of workqueue/dispatcher/dispatcher.go launches, and how many.
use Prim.Native.Nat.{min}
use mathlib.Core.List.{append-nil}
use go_driftlessaf.Base.{
  ℕ, zero, suc, ◌-◌, ◌≤◌, ◌≡◌, refl, ap, ◌∙◌, String, true, false, not, List, [], ◌∷◌, ◌++◌, map,
  arith, inl, inr, if◌then◌else◌, Bool-cases, length, take, keep, length-take, length-map, map-take,
  sym, str_eq, eq_iff, ℤ, pos, pos_part, leb_ℤ, ◌-ℤ◌, ◌||◌,
}
use go_driftlessaf.Workqueue.Interface.{Backend, ok}
use go_driftlessaf.Workqueue.Policy.{Config}
use go_driftlessaf.Workqueue.Dispatcher.{
  handle_async, Task, orphaned, launched, launch, launch_limit, dispatch, has_name, add_name,
  survey,
}

has_name-add_name :
    (k j : String) (js : List String)
    → has_name k (add_name j js) ≡ (if str_eq j k then true else has_name k js)
unfolding has_name add_name
has_name-add_name k j js = ground (arith, eq_iff j k)

abbrev pub Distinct : List String → Type 0
Distinct [] = Unit
Distinct (k ∷ ks) = (has_name k ks ≡ false) × Distinct ks

add_name-Distinct : (k : String) (ks : List String) → Distinct ks → Distinct (add_name k ks)
unfolding add_name
add_name-Distinct k ks d = ground arith

module _ (b : Backend) (c : Config) where
  open b use {State, Observed, Waiting}

  -- The candidates: the next keys that are not in progress.
  abbrev pub fresh : List String → List Waiting → List Waiting
  fresh active next = keep (λ q. not (has_name (b.waiting_name q) active)) next

  launch-take :
      (active : List String) (room : ℕ) (next : List Waiting)
      → launch b c active room next ≡ take room (map launched (fresh active next))
  unfolding launch
  launch-take active zero next = refl
  launch-take active (suc room) [] = refl
  launch-take active (suc room) (q ∷ next) =
      elim (Bool-cases (has_name (b.waiting_name q) active)) [
        | inl e ↦ rw e (launch-take active (suc room) next)
        | inr e ↦ rw e (ap (◌∷◌ (launched q)) (launch-take active room next))
      ]

  -- How many keys a pass may launch.
  abbrev pub slots : ℤ → ℤ → ℕ → ℕ
  slots concurrency batch_size active =
      let open_slots = pos_part concurrency - active in
      if leb_ℤ batch_size (pos 0) then open_slots else min (pos_part batch_size) open_slots

  launch_limit-slots :
      (concurrency batch_size : ℤ) (n : ℕ)
      → leb_ℤ concurrency (pos n) ≡ false
      → pos_part (launch_limit b c concurrency batch_size n) ≡ slots concurrency batch_size n
  unfolding launch_limit ◌-ℤ◌
  launch_limit-slots concurrency batch_size n h = ground arith

  slots_le :
      (concurrency batch_size : ℤ) (n : ℕ)
      → slots concurrency batch_size n ≤ pos_part concurrency - n
  slots_le concurrency batch_size n = ground arith

  no_slots :
      (concurrency batch_size : ℤ) (n : ℕ)
      → leb_ℤ concurrency (pos n) ≡ true
      → slots concurrency batch_size n ≡ 0
  no_slots concurrency batch_size n h = ground arith

  full_take :
      (orphans chosen : List (Task b c)) (room candidates : ℕ)
      → room ≡ 0
      → length chosen ≡ min room candidates
      → orphans ≡ orphans ++ chosen
  full_take orphans [] room candidates r l = sym (append-nil orphans)
  full_take orphans (x ∷ chosen) room candidates r l = absurd (omega arith)

  -- A pass puts back the orphans, and launches in order the first candidates that are not in
  -- progress: as many as there are, up to the batch size and to the slots that the active keys leave
  -- open, so never more than the concurrency allows.
  pub dispatch-take :
      (concurrency batch_size : ℤ) (next : List Waiting) (active : List String)
      (orphans : List (Task b c))
      → let chosen =
          take (slots concurrency batch_size (length active)) (map launched (fresh active next)) in
        (dispatch b c concurrency batch_size next (active, orphans) ≡ orphans ++ chosen)
        × (length chosen ≤ pos_part concurrency - length active)
        × (length chosen
            ≡ min (slots concurrency batch_size (length active)) (length (fresh active next)))
  unfolding dispatch
  dispatch-take concurrency batch_size next active orphans =
      let room = slots concurrency batch_size (length active) in
      let chosen : List (Task b c) = take room (map launched (fresh active next)) in
      let count : length chosen ≡ min room (length (fresh active next)) =
        length-take room (map launched (fresh active next))
        ∙ ap (min room) (length-map launched (fresh active next)) in
      (
        elim (Bool-cases (leb_ℤ concurrency (pos (length active)))) [
          | inl full ↦ rw full (
              full_take orphans chosen room (length (fresh active next))
                (no_slots concurrency batch_size (length active) full) (count))
          | inr free ↦
              rw (free, launch_limit-slots concurrency batch_size (length active) free)
                (ap (◌++◌ orphans) (launch-take active room next))
        ],
        omega (arith, count, slots_le concurrency batch_size (length active)),
        count,
      )

  abbrev pub alive : State → List Observed → List Observed
  alive s xs = keep (λ x. not (b.is_orphaned x s)) xs

  abbrev pub orphans_of : State → List Observed → List Observed
  orphans_of s xs = keep (λ x. b.is_orphaned x s) xs

  -- The names of the active keys, each once.
  abbrev pub names_from : List String → List Observed → List String
  names_from active [] = active
  names_from active (x ∷ xs) = names_from (add_name (b.observed_name x) active) xs

  survey_lem :
      (s : State) (active : List String) (xs : List Observed)
      → survey b c s active xs ≡ (names_from active (alive s xs), map orphaned (orphans_of s xs))
  unfolding survey
  survey_lem s active [] = refl
  survey_lem s active (x ∷ xs) = elim (Bool-cases (b.is_orphaned x s)) [
    | inl e ↦ rw (e, survey_lem s active xs)
    | inr e ↦ rw (e, survey_lem s (add_name (b.observed_name x) active) xs)
  ]

  names_from-Distinct :
      (active : List String) (xs : List Observed)
      → Distinct active
      → Distinct (names_from active xs)
  names_from-Distinct active [] d = d
  names_from-Distinct active (x ∷ xs) d =
      names_from-Distinct (add_name (b.observed_name x) active) xs
        (add_name-Distinct (b.observed_name x) active d)

  has_name-names_from :
      (k : String) (active : List String) (xs : List Observed)
      → has_name k (names_from active xs)
        ≡ (has_name k active || has_name k (map b.observed_name xs))
  unfolding has_name
  has_name-names_from k active [] = ground arith
  has_name-names_from k active (x ∷ xs) = ground (
    arith,
    has_name-names_from k (add_name (b.observed_name x) active) xs,
    has_name-add_name k (b.observed_name x) active,
  )

  -- HandleAsync turns the listing of the queue into goroutines: one for each orphan, which goes back
  -- to the queue, and one for each key that it launches. The keys launched are the first of those
  -- next in line that no live attempt holds, and together with the distinct names of the live
  -- attempts they stay within the concurrency.
  pub handle_async-tasks :
      (concurrency batch_size : ℤ) (s s' : State) (wip : List Observed) (next : List Waiting)
      → b.enumerate s ≡ (ok (wip, next), s')
      → let live = map b.observed_name (alive s' wip) in
        (active : List String) × Distinct active
        × ((k : String) → has_name k active ≡ has_name k live)
        × (let chosen = take (slots concurrency batch_size (length active)) (fresh active next) in
            (handle_async b c concurrency batch_size s
              ≡ (ok (map orphaned (orphans_of s' wip) ++ map launched chosen), s'))
            × (length chosen ≤ pos_part concurrency - length active))
  unfolding handle_async
  handle_async-tasks concurrency batch_size s s' wip next listed =
      let active = names_from [] (alive s' wip) in
      let orphans : List (Task b c) = map orphaned (orphans_of s' wip) in
      let room = slots concurrency batch_size (length active) in
      (
        active,
        names_from-Distinct [] (alive s' wip) tt,
        (λ k. has_name-names_from k [] (alive s' wip)),
        (
          rw (
            listed,
            survey_lem s' [] wip,
            (dispatch-take concurrency batch_size next active orphans).0,
            map-take launched room (fresh active next),
          ),
          omega (
            arith,
            length-take room (fresh active next),
            slots_le concurrency batch_size (length active),
          ),
        ),
      )
