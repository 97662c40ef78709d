-- ===== src/Base/Flat.antt =====
-- The lists that a function gives, one after the other.
use mathlib.Core.Path.{◌≡◌, refl, ap}
use mathlib.Core.Logic.{∥∥₁_elim}
use mathlib.Core.List.{List, [], ◌∷◌, ◌++◌, map, Permᴰ, Perm, Perm-prop, append_assoc}
use mathlib.Core.List.Perm
use mathlib.Core.List.Permᴰ

module _ {ℓ} {A : Type ℓ} where
  perm_swap_front : (xs ys zs : List A) → Perm (xs ++ (ys ++ zs)) (ys ++ (xs ++ zs))
  perm_swap_front xs ys zs =
      rw (← append_assoc xs ys zs, ← append_assoc ys xs zs)
        (Perm.append_right zs ∣ Permᴰ.append_comm xs ys ∣₁)

module _ {ℓ κ} {A : Type ℓ} {B : Type κ} (f : A → List B) where
  abbrev pub flat_map : List A → List B
  flat_map [] = []
  flat_map (x ∷ xs) = f x ++ flat_map xs

  flat_mapᴰ : {xs ys : List A} → Permᴰ xs ys → Perm (flat_map xs) (flat_map ys)
  flat_mapᴰ Permᴰ.nil = Perm.nil
  flat_mapᴰ (Permᴰ.cons {b = b} e d) = rw (ap f e) (Perm.append (Perm.refl (f b)) (flat_mapᴰ d))
  flat_mapᴰ (Permᴰ.swap {a' = a'} {b' = b'} {l = l} e₁ e₂) =
      rw (ap f e₁, ap f e₂) (perm_swap_front (f b') (f a') (flat_map l))
  flat_mapᴰ (Permᴰ.trans d e) = Perm.trans (flat_mapᴰ d) (flat_mapᴰ e)

  pub flat_map-perm : {xs ys : List A} → Perm xs ys → Perm (flat_map xs) (flat_map ys)
  flat_map-perm {xs} {ys} p = ∥∥₁_elim p (Perm-prop {l₁ = flat_map xs} {l₂ = flat_map ys}) flat_mapᴰ

module _ {ℓ κ} {A : Type ℓ} {B : Type κ} where
  -- Another function gives the same elements in its lists.
  pub flat_map-perm_each :
      (f g : A → List B)
      → ((x : A) → Perm (f x) (g x))
      → (xs : List A) → Perm (flat_map f xs) (flat_map g xs)
  flat_map-perm_each f g h [] = Perm.nil
  flat_map-perm_each f g h (x ∷ xs) = Perm.append (h x) (flat_map-perm_each f g h xs)

  pub flat_map-map {μ} :
      {C : Type μ} (g : C → A) (f : A → List B) (xs : List C)
      → flat_map f (map g xs) ≡ flat_map (λ x. f (g x)) xs
  flat_map-map g f [] = refl
  flat_map-map g f (x ∷ xs) = ap (λ l. f (g x) ++ l) (flat_map-map g f xs)
