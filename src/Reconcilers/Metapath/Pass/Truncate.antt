-- ===== src/Reconcilers/Metapath/Pass/Truncate.antt =====
-- truncateDesired and priorFirst of metapathreconciler/issues.go.
use mathlib.Core.List.{Perm, append_assoc, perm_middle}
use mathlib.Core.List.Perm
use go_driftlessaf.Base.{
  ℕ, zero, suc, ◌+◌, All-map, ◌-◌, ◌≡◌, refl, ◌∙◌, ap, Bool, true, false, not, some, List, [], ◌∷◌,
  ◌++◌, length, take, drop, leb, ℤ, pos, pos_part, max_ℤ, keep, take-append, take-append-drop,
  length-append, length-take, All, Bool-cases, inl, inr, arith, ◌≤ℤ◌,
}
use go_driftlessaf.Reconcilers.Metapath.{IssueData}
use go_driftlessaf.Reconcilers.Metapath.Pass.{
  is_tracked, split_prior, prior_first, slice, truncate_desired,
}

module _ (prior : List IssueData) where
  -- The entries with an open issue, and the others, in their order.
  abbrev pub tracked : List IssueData → List IssueData
  tracked ds = keep (is_tracked prior) ds

  abbrev pub fresh : List IssueData → List IssueData
  fresh ds = keep (λ d. not (is_tracked prior d)) ds

  split_prior-keep : (ds : List IssueData) → split_prior prior ds ≡ (tracked ds, fresh ds)
  unfolding split_prior
  split_prior-keep [] = refl
  split_prior-keep (d ∷ ds) = elim (Bool-cases (is_tracked prior d)) [
    | inl e ↦ rw (e, split_prior-keep ds)
    | inr e ↦ rw (e, split_prior-keep ds)
  ]

  parts-perm : (ds : List IssueData) → Perm (tracked ds ++ fresh ds) ds
  parts-perm [] = Perm.refl []
  parts-perm (d ∷ ds) = elim (Bool-cases (is_tracked prior d)) [
    | inl e ↦ rw e (Perm.cons d (parts-perm ds))
    | inr e ↦ rw e (Perm.trans (perm_middle (tracked ds) (fresh ds)) (Perm.cons d (parts-perm ds)))
  ]

  length-parts : (ds : List IssueData) → length (tracked ds) + length (fresh ds) ≡ length ds
  length-parts [] = omega arith
  length-parts (d ∷ ds) = ground (arith, length-parts ds)

  -- How many entries are kept.
  abbrev pub kept_count : List IssueData → ℤ → ℕ
  kept_count ds limit = pos_part (max_ℤ limit (pos (length (tracked ds))))

  prior_first-keep :
      (ds : List IssueData) → prior_first ds prior ≡ (tracked ds ++ fresh ds, length (tracked ds))
  unfolding prior_first
  prior_first-keep ds =
      let parts = split_prior-keep ds in
      let n : length (tracked ds ++ fresh ds) - length (fresh ds) ≡ length (tracked ds) =
        omega (arith, length-append (tracked ds) (fresh ds)) in
      ap (λ (p : List IssueData × List IssueData). (p.0 ++ p.1, length (p.0 ++ p.1) - length p.1))
        parts
      ∙ ap (λ k. (tracked ds ++ fresh ds, k)) n

  -- Every entry with an open issue comes first, and others as far as the limit allows.
  pub truncate_desired-append :
      (ds : List IssueData) (limit : ℤ)
      → limit ≤ℤ pos (length ds)
      → truncate_desired ds prior limit
        ≡ some (tracked ds ++ take (kept_count ds limit - length (tracked ds)) (fresh ds))
  unfolding truncate_desired
  truncate_desired-append ds limit fits =
      let n = kept_count ds limit in
      let parts = tracked ds ++ fresh ds in
      let bound : leb n (length parts) ≡ true =
        ground (arith, length-append (tracked ds) (fresh ds), length-parts ds) in
      ap (λ (p : List IssueData × ℕ). slice p.0 (pos_part (max_ℤ limit (pos p.1))))
        (prior_first-keep ds)
      ∙ rw bound (ap some (take-append n (tracked ds) (fresh ds) (ground arith)))

  All-keep : {A : Type 0} (p : A → Bool) (xs : List A) → All (λ x. p x ≡ true) (keep p xs)
  All-keep p [] = tt
  All-keep p (x ∷ xs) = elim (Bool-cases (p x)) [
    | inl e ↦ rw e (e, All-keep p xs)
    | inr e ↦ rw e (All-keep p xs)
  ]

  All-drop : {A : Type 0} (P : A → Type 0) (n : ℕ) (xs : List A) → All P xs → All P (drop n xs)
  All-drop P zero xs h = h
  All-drop P (suc n) [] h = tt
  All-drop P (suc n) (x ∷ xs) h = All-drop P n xs h.1

  -- Truncation never panics within the limit, and sheds only new findings: the kept and the shed
  -- entries together are the desired ones, none of the shed has an open issue, and as many are kept as
  -- the limit allows, or as have an open issue if those are more.
  pub truncate_desired_sheds_new :
      (ds : List IssueData) (limit : ℤ)
      → limit ≤ℤ pos (length ds)
      → (kept shed : List IssueData) × (truncate_desired ds prior limit ≡ some kept)
        × Perm (kept ++ shed) ds
        × All (λ d. is_tracked prior d ≡ false) shed
        × (pos (length kept) ≡ max_ℤ limit (pos (length (tracked ds))))
  truncate_desired_sheds_new ds limit fits =
      let more = kept_count ds limit - length (tracked ds) in
      let taken = take more (fresh ds) in
      (
        tracked ds ++ taken,
        drop more (fresh ds),
        truncate_desired-append ds limit fits,
        rw
            (
              append_assoc (tracked ds) taken (drop more (fresh ds)),
              take-append-drop more (fresh ds),
            )
            (parts-perm ds),
        All-map (λ d e. ground arith) (drop more (fresh ds))
            (All-drop _ more (fresh ds) (All-keep (λ d. not (is_tracked prior d)) ds)),
        ground
            (arith, length-append (tracked ds) taken, length-take more (fresh ds), length-parts ds),
      )
