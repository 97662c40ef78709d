-- ===== src/Base/Sort.antt =====
-- `sort.Slice(s, less)`: the sorted arrangement that insertion makes, an equal element going after
-- those already there. (Go leaves the order of equal elements open.)
use Prim.Native.Nat.{◌+◌, ℕ, zero, suc}
use mathlib.Core.Path.{◌≡◌, refl, ap, sym, ◌∙◌}
use mathlib.Core.Bool.{Bool, true, false}
use mathlib.Core.Logic.{inl, inr}
use mathlib.Core.List.{List, [], ◌∷◌, ◌++◌, Perm, perm_middle, append-nil, append_assoc}
use mathlib.Core.List.Perm
use native.Mathlib.Omega.{arith}
use go_driftlessaf.Base.Tests.{if◌then◌else◌, ltb, Bool-cases}
use go_driftlessaf.Base.Lists.{length, take, All, take_all, take-cons_take, All-take, All-map}

module _ {ℓ} {A : Type ℓ} where
  unfoldable pub insort : (A → A → Bool) → A → List A → List A
  insort less x [] = x ∷ []
  insort less x (y ∷ ys) = if less x y then x ∷ y ∷ ys else y ∷ insort less x ys

  unfoldable pub sort_onto : (A → A → Bool) → List A → List A → List A
  sort_onto less acc [] = acc
  sort_onto less acc (x ∷ xs) = sort_onto less (insort less x acc) xs

  unfoldable pub sort : (A → A → Bool) → List A → List A
  unfolding sort_onto
  sort less xs = sort_onto less [] xs

  -- A bounded list kept by appending, sorting and cutting, as the listing loops keep it.
  abbrev pub push_bounded : (A → A → Bool) → ℕ → List A → A → List A
  push_bounded less k ys x =
      let sorted = sort less (ys ++ x ∷ []) in
      if ltb k (length sorted) then take k sorted else sorted

  unfoldable pub push_all : (A → A → Bool) → ℕ → List A → List A → List A
  push_all less k ys [] = ys
  push_all less k ys (x ∷ xs) = push_all less k (push_bounded less k ys x) xs

  -- No element stands after one that it is less than.
  abbrev pub Ordered : (A → A → Bool) → List A → Type ℓ
  Ordered less [] = Unit
  Ordered less (x ∷ xs) = All (λ y. less y x ≡ false) xs × Ordered less xs

  insort-perm : (less : A → A → Bool) (x : A) (ys : List A) → Perm (insort less x ys) (x ∷ ys)
  unfolding insort
  insort-perm less x [] = Perm.refl (x ∷ [])
  insort-perm less x (y ∷ ys) = elim (Bool-cases (less x y)) [
    | inl e ↦ rw e (Perm.refl (x ∷ y ∷ ys))
    | inr e ↦ rw e (Perm.trans (Perm.cons y (insort-perm less x ys)) (Perm.swap x y ys))
  ]

  sort_onto-perm :
      (less : A → A → Bool) (acc xs : List A) → Perm (sort_onto less acc xs) (acc ++ xs)
  unfolding sort_onto
  sort_onto-perm less acc [] = rw append-nil (Perm.refl acc)
  sort_onto-perm less acc (x ∷ xs) = Perm.trans (sort_onto-perm less (insort less x acc) xs) (
      Perm.trans (Perm.append (insort-perm less x acc) (Perm.refl xs))
        (Perm.symm (perm_middle acc xs)))

  pub sort-perm : (less : A → A → Bool) (xs : List A) → Perm (sort less xs) xs
  unfolding sort
  sort-perm less xs = sort_onto-perm less [] xs

  length-insort :
      (less : A → A → Bool) (x : A) (ys : List A) → length (insort less x ys) ≡ suc (length ys)
  unfolding insort
  length-insort less x [] = refl
  length-insort less x (y ∷ ys) = ground (arith, length-insort less x ys)

  length-sort_onto :
      (less : A → A → Bool) (acc xs : List A)
      → length (sort_onto less acc xs) ≡ length acc + length xs
  unfolding sort_onto
  length-sort_onto less acc [] = omega arith
  length-sort_onto less acc (x ∷ xs) =
      omega (arith, length-sort_onto less (insort less x acc) xs, length-insort less x acc)

  pub length-sort : (less : A → A → Bool) (xs : List A) → length (sort less xs) ≡ length xs
  unfolding sort
  length-sort less xs = omega (arith, length-sort_onto less [] xs)

  -- Cutting to the limit before an insertion loses nothing of the first `k`.
  pub take-insort-take :
      (less : A → A → Bool) (k : ℕ) (x : A) (ys : List A)
      → take k (insort less x (take k ys)) ≡ take k (insort less x ys)
  unfolding insort
  take-insort-take less zero x ys = refl
  take-insort-take less (suc k) x [] = refl
  take-insort-take less (suc k) x (y ∷ ys) = elim (Bool-cases (less x y)) [
    | inl e ↦ rw e (ap (◌∷◌ x) (take-cons_take k y ys))
    | inr e ↦ rw e (ap (◌∷◌ y) (take-insort-take less k x ys))
  ]

module _ {ℓ} {A : Type ℓ} (less : A → A → Bool)
    (asym : (x y : A) → less x y ≡ true → less y x ≡ false)
    (below : (x y z : A) → less x y ≡ true → less z y ≡ false → less z x ≡ false) where
  insort-All {κ} :
      (P : A → Type κ) (x : A) (ys : List A) → P x → All P ys → All P (insort less x ys)
  unfolding insort
  insort-All P x [] h hs = (h, tt)
  insort-All P x (y ∷ ys) h hs = elim (Bool-cases (less x y)) [
    | inl e ↦ rw e (h, hs)
    | inr e ↦ rw e (hs.0, insort-All P x ys h hs.1)
  ]

  insort-Ordered : (x : A) (ys : List A) → Ordered less ys → Ordered less (insort less x ys)
  unfolding insort
  insort-Ordered x [] o = (tt, tt)
  insort-Ordered x (y ∷ ys) o = elim (Bool-cases (less x y)) [
    | inl e ↦ rw e ((asym x y e, All-map (λ z h. below x y z e h) ys o.0), o)
    | inr e ↦ rw e (insort-All (λ z. less z y ≡ false) x ys e o.0, insort-Ordered x ys o.1)
  ]

  sort_onto-Ordered : (acc xs : List A) → Ordered less acc → Ordered less (sort_onto less acc xs)
  unfolding sort_onto
  sort_onto-Ordered acc [] o = o
  sort_onto-Ordered acc (x ∷ xs) o =
      sort_onto-Ordered (insort less x acc) xs (insort-Ordered x acc o)

  pub sort-Ordered : (xs : List A) → Ordered less (sort less xs)
  unfolding sort
  sort-Ordered xs = sort_onto-Ordered [] xs tt

  take-Ordered : (k : ℕ) (xs : List A) → Ordered less xs → Ordered less (take k xs)
  take-Ordered zero xs o = tt
  take-Ordered (suc k) [] o = tt
  take-Ordered (suc k) (x ∷ xs) o =
      (All-take (λ y. less y x ≡ false) k xs o.0, take-Ordered k xs o.1)

  -- An element that is less than none of those there goes to the end.
  insort_last :
      (x : A) (ys : List A) → All (λ y. less x y ≡ false) ys → insort less x ys ≡ ys ++ x ∷ []
  unfolding insort
  insort_last x [] h = refl
  insort_last x (y ∷ ys) h = rw h.0 (ap (◌∷◌ y) (insort_last x ys h.1))

  All-middle {κ} : (P : A → Type κ) (xs : List A) (y : A) (ys : List A) → All P (xs ++ y ∷ ys) → P y
  All-middle P [] y ys h = h.0
  All-middle P (x ∷ xs) y ys h = All-middle P xs y ys h.1

  Ordered-middle :
      (xs : List A) (y : A) (ys : List A)
      → Ordered less (xs ++ y ∷ ys)
      → All (λ x. less y x ≡ false) xs
  Ordered-middle [] y ys o = tt
  Ordered-middle (x ∷ xs) y ys o =
      (All-middle (λ z. less z x ≡ false) xs y ys o.0, Ordered-middle xs y ys o.1)

  sort_onto_in_place :
      (acc xs : List A) → Ordered less (acc ++ xs) → sort_onto less acc xs ≡ acc ++ xs
  unfolding sort_onto
  sort_onto_in_place acc [] o = rw append-nil
  sort_onto_in_place acc (x ∷ xs) o = rw (insort_last x acc (Ordered-middle acc x xs o)) (
      sort_onto_in_place (acc ++ x ∷ []) xs (rw (append_assoc acc (x ∷ []) xs) o)
      ∙ append_assoc acc (x ∷ []) xs)

  sort_onto-append :
      (acc xs : List A) (y : A)
      → sort_onto less acc (xs ++ y ∷ []) ≡ insort less y (sort_onto less acc xs)
  unfolding sort_onto
  sort_onto-append acc [] y = refl
  sort_onto-append acc (x ∷ xs) y = sort_onto-append (insort less x acc) xs y

  -- Sorting a sorted list with one more element behind it is one insertion.
  sort_snoc : (x : A) (ys : List A) → Ordered less ys → sort less (ys ++ x ∷ []) ≡ insort less x ys
  unfolding sort
  sort_snoc x ys o = sort_onto-append [] ys x ∙ ap (insort less x) (sort_onto_in_place [] ys o)

  cut_take : (k : ℕ) (xs : List A) → (if ltb k (length xs) then take k xs else xs) ≡ take k xs
  cut_take k xs = elim (Bool-cases (ltb k (length xs))) [
    | inl e ↦ rw e
    | inr e ↦ rw e (sym (take_all k xs (ground arith)))
  ]

  -- One round on the first `k` of a sorted list is the first `k` of an insertion.
  pub push_bounded-take :
      (k : ℕ) (x : A) (ys : List A)
      → Ordered less ys
      → push_bounded less k (take k ys) x ≡ take k (insort less x ys)
  push_bounded-take k x ys o =
      cut_take k _
      ∙ ap (take k) (sort_snoc x (take k ys) (take-Ordered k ys o))
      ∙ take-insort-take less k x ys

  -- So the loop over a list ends with the first `k` of the whole list sorted.
  push_all-take :
      (k : ℕ) (acc xs : List A)
      → Ordered less acc
      → push_all less k (take k acc) xs ≡ take k (sort_onto less acc xs)
  unfolding push_all sort_onto
  push_all-take k acc [] o = refl
  push_all-take k acc (x ∷ xs) o =
      ap (λ zs. push_all less k zs xs) (push_bounded-take k x acc o)
      ∙ push_all-take k (insort less x acc) xs (insort-Ordered x acc o)

  take-nil : (k : ℕ) → take {A = A} k [] ≡ []
  take-nil zero = refl
  take-nil (suc k) = refl

  pub push_all-eq-take-sort : (k : ℕ) (xs : List A) → push_all less k [] xs ≡ take k (sort less xs)
  unfolding sort
  push_all-eq-take-sort k xs =
      ap (λ zs. push_all less k zs xs) (sym (take-nil k)) ∙ push_all-take k [] xs tt
