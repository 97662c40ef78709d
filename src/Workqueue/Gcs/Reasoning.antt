-- ===== src/Workqueue/Gcs/Reasoning.antt =====
-- Reasoning about programs over a bucket: a program obeys a rule if it sends only what the rule
-- allows after what was sent and answered before, whatever the replies are.
use go_driftlessaf.Workqueue.Gcs.Bucket.{Request, Reply, Program, ret, call, ◌>>=◌}

module _ {G : Type 0} (allowed : G → Request → Type 0)
    (next : G → (r : Request) → Reply r → G) where
  -- `g` is what the rule keeps of the past, and `P` what it wants of the result.
  abbrev pub Obeys : {A : Type 0} → (G → A → Type 0) → G → Program A → Type 0
  Obeys P g (ret a) = P g a
  Obeys P g (call r k) = allowed g r × ((x : Reply r) → Obeys P (next g r x) (k x))

  Obeys-bind :
      {A B : Type 0} (P : G → B → Type 0) (f : A → Program B) (p : Program A) (g : G)
      → Obeys (λ h a. Obeys P h (f a)) g p
      → Obeys P g (p >>= f)
  unfolding ◌>>=◌
  Obeys-bind P f (ret a) g h = h
  Obeys-bind P f (call r k) g h = (h.0, λ x. Obeys-bind P f (k x) (next g r x) (h.1 x))

  pub Obeys-mono :
      {A : Type 0} (P Q : G → A → Type 0)
      → ((g : G) (a : A) → P g a → Q g a)
      → (p : Program A) (g : G) → Obeys P g p
      → Obeys Q g p
  Obeys-mono P Q f (ret a) g h = f g a h
  Obeys-mono P Q f (call r k) g h = (h.0, λ x. Obeys-mono P Q f (k x) (next g r x) (h.1 x))

  -- One program after another: what holds of the first result lets the second go on.
  pub Obeys-seq :
      {A B : Type 0} (P : G → A → Type 0) (Q : G → B → Type 0) (p : Program A) (f : A → Program B)
      (g : G)
      → Obeys P g p
      → ((h : G) (a : A) → P h a → Obeys Q h (f a))
      → Obeys Q g (p >>= f)
  Obeys-seq P Q p f g h k = Obeys-bind Q f p g (Obeys-mono P (λ u a. Obeys Q u (f a)) k p g h)
