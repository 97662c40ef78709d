-- ===== src/Base/Arranged.antt =====
-- What another arrangement of a list keeps: a property of every element, and a relation between any
-- two.
use mathlib.Core.Path.{subst}
use mathlib.Core.Logic.{∥∥₁_elim}
use mathlib.Core.HLevel.{×_prop, Unit-prop}
use mathlib.Core.List.{List, [], ◌∷◌, Permᴰ, Perm}
use mathlib.Core.Bool.{Bool, false, Bool-set}
use go_driftlessaf.Base.Sort.{Ordered}
use go_driftlessaf.Base.Lists.{All}

module _ {ℓ κ} {A : Type ℓ} (P : A → Type κ) where
  All-permᴰ : {xs ys : List A} → Permᴰ xs ys → All P xs → All P ys
  All-permᴰ Permᴰ.nil h = h
  All-permᴰ (Permᴰ.cons e d) h = (subst P e h.0, All-permᴰ d h.1)
  All-permᴰ (Permᴰ.swap e₁ e₂) h = (subst P e₂ h.1.0, (subst P e₁ h.0, h.1.1))
  All-permᴰ (Permᴰ.trans d e) h = All-permᴰ e (All-permᴰ d h)

  pub All-prop : ((x : A) → IsProp (P x)) → (xs : List A) → IsProp (All P xs)
  All-prop p [] = Unit-prop
  All-prop p (x ∷ xs) = ×_prop (p x) (All-prop p xs)

  pub All-perm : ((x : A) → IsProp (P x)) → {xs ys : List A} → Perm xs ys → All P xs → All P ys
  All-perm p {xs} {ys} d h = ∥∥₁_elim d (All-prop p ys) (λ d. All-permᴰ d h)

module _ {ℓ κ} {A : Type ℓ} (R : A → A → Type κ) where
  -- Each element is related to all those behind it.
  abbrev pub Pairs : List A → Type κ
  Pairs [] = Unit
  Pairs (x ∷ xs) = All (R x) xs × Pairs xs

  module _ (rP : (x y : A) → IsProp (R x y)) (flip : (x y : A) → R x y → R y x) where
    Pairs-prop : (xs : List A) → IsProp (Pairs xs)
    Pairs-prop [] = Unit-prop
    Pairs-prop (x ∷ xs) = ×_prop (All-prop (R x) (rP x) xs) (Pairs-prop xs)

    Pairs-permᴰ : {xs ys : List A} → Permᴰ xs ys → Pairs xs → Pairs ys
    Pairs-permᴰ Permᴰ.nil h = h
    Pairs-permᴰ (Permᴰ.cons {l₂ = l₂} e d) h =
        (subst (λ x. All (R x) l₂) e (All-permᴰ (R _) d h.0), Pairs-permᴰ d h.1)
    Pairs-permᴰ (Permᴰ.swap {a = a} {b = b} {a' = a'} {b' = b'} {l = l} e₁ e₂) h = (
      (subst (λ x. R x b') e₂ (subst (R b) e₁ (flip a b h.0.0)), subst (λ x. All (R x) l) e₂ h.1.0),
      (subst (λ x. All (R x) l) e₁ h.0.1, h.1.1),
    )
    Pairs-permᴰ (Permᴰ.trans d e) h = Pairs-permᴰ e (Pairs-permᴰ d h)

    pub Pairs-perm : {xs ys : List A} → Perm xs ys → Pairs xs → Pairs ys
    Pairs-perm {xs} {ys} d h = ∥∥₁_elim d (Pairs-prop ys) (λ d. Pairs-permᴰ d h)

-- Being in order is a proposition.
pub Ordered-prop {ℓ} : {A : Type ℓ} (less : A → A → Bool) (xs : List A) → IsProp (Ordered less xs)
Ordered-prop less [] = Unit-prop
Ordered-prop less (x ∷ xs) =
    ×_prop (All-prop _ (λ y. Bool-set (less y x) false) xs) (Ordered-prop less xs)
