-- ===== src/Agents/Suspend/Progress.antt =====
-- The steps of Wake in agents/suspend/coordinator.go, over any two stores.
use go_driftlessaf.Base.{
  ℕ, suc, ◌≤◌, ◌≡◌, refl, String, none, some, List, [], ◌∷◌, arith, Bool, true, false, length,
}
use go_driftlessaf.Clock.{Instant}
use go_driftlessaf.Agents.Checkpoint.{Store}
use go_driftlessaf.Agents.Suspend.{QuestionStore, Coordinator, World}
use go_driftlessaf.Agents.Suspend.Wake.{
  Waker, resume, fresh, rearm, loading, sweeping, sweeping_with, sweeping_question, asking,
  claiming, consuming, woken, step_wake, loaded, swept, swept_after, answered, claimed,
}

-- The steps that a call of Wake still needs.
abbrev steps_left : Waker → ℕ
steps_left loading = 4
steps_left (sweeping token) = 3
steps_left (sweeping_with token q) = 2
steps_left (sweeping_question id) = 1
steps_left (asking e token) = 3
steps_left (claiming e token a) = 2
steps_left (consuming e token a) = 1
steps_left (woken d x) = 0

-- No decision to resume with an error.
abbrev is_sound : Waker → Bool
is_sound (woken (resume e a token) (some x)) = false
is_sound _ = true

-- A decision, and if it is to resume, no error.
abbrev pub is_decided : Waker → Bool
is_decided (woken (resume e a token) (some x)) = false
is_decided (woken d x) = true
is_decided _ = false

module _ (S : Store) (Q : QuestionStore) (c : Coordinator) (key : String) where
  -- The steps of one call, each at its own time and in the stores as it finds them.
  unfoldable pub run_among : List (Instant × World S Q) → Waker → Waker
  run_among [] t = t
  run_among ((now, w) ∷ is) t = run_among is (step_wake S Q c key now t w).0

  abbrev Advanced : ℕ → Waker → Type 0
  Advanced n t = (steps_left t ≤ n) × (is_sound t ≡ true)

  step_wake-Advanced :
      (now : Instant) (t : Waker) (w : World S Q) (n : ℕ)
      → steps_left t ≤ suc n
      → is_sound t ≡ true
      → Advanced n (step_wake S Q c key now t w).0
  unfolding step_wake loaded swept swept_after answered claimed
  step_wake-Advanced now loading w n h sound = ground arith
  step_wake-Advanced now (sweeping token) w n h sound = ground arith
  step_wake-Advanced now (sweeping_with token q) w n h sound = ground arith
  step_wake-Advanced now (sweeping_question id) w n h sound = ground arith
  step_wake-Advanced now (asking e token) w n h sound = ground arith
  step_wake-Advanced now (claiming e token a) w n h sound = ground arith
  step_wake-Advanced now (consuming e token a) w n h sound = ground arith
  step_wake-Advanced now (woken d x) w n h sound = (omega arith, sound)

  decided : (t : Waker) → steps_left t ≤ 0 → is_sound t ≡ true → is_decided t ≡ true
  decided (woken (resume e a token) none) h s = refl
  decided (woken (resume e a token) (some x)) h s = cc
  decided (woken fresh x) h s = refl
  decided (woken rearm x) h s = refl
  decided _ h s = absurd (omega arith)

  run_among-decided :
      (is : List (Instant × World S Q)) (t : Waker)
      → steps_left t ≤ length is
      → is_sound t ≡ true
      → is_decided (run_among is t) ≡ true
  unfolding run_among
  run_among-decided [] t h s = decided t (omega arith) s
  run_among-decided ((now, w) ∷ is) t h s =
      let (fewer, sound) = step_wake-Advanced now t w (length is) (omega arith) s in
      run_among-decided is (step_wake S Q c key now t w).0 fewer sound

  -- A call of Wake decides within four steps, whatever the stores answer and whatever others do to
  -- them between its steps, and it never decides to resume together with an error.
  pub wake_decides :
      (is : List (Instant × World S Q)) → 4 ≤ length is → is_decided (run_among is loading) ≡ true
  wake_decides is h = run_among-decided is loading h refl
