-- ===== src/Reconcilers/Issues/Labels/Settled.antt =====
-- The labels of an issue after an update: mergeLabels and needsUpdate of issuemanager/session.go.
use mathlib.Core.List.{append-nil, append_assoc}
use go_driftlessaf.Base.{
  ◌≡◌, refl, ◌∙◌, ap, Bool, true, false, ◌||◌, Option, none, some, List, [], ◌∷◌, ◌++◌, length, ltb,
  Bytes, same, keep, keep-append, All, All-append, All-map, arith, Bool-cases, inl, inr,
}
use go_driftlessaf.Reconcilers.Issues.{Im, Issue, colon, max_github_label_length}
use go_driftlessaf.Reconcilers.Issues.Labels.{
  contains, has_prefix, add_label, run_templates, generate_labels, is_user_label, merge_labels,
  label_set, includes, label_sets_equal, needs_update,
}

pub same_refl : (s : Bytes) → same s s ≡ true
unfolding same
same_refl [] = refl
same_refl (a ∷ s) = ground (arith, same_refl s)

contains-All : (ss : List Bytes) → All (λ t. contains ss t ≡ true) ss
unfolding contains
contains-All [] = tt
contains-All (s ∷ ss) =
    (rw (same_refl s), All-map (λ t h. rw h (either (same s t))) ss (contains-All ss))
  where
    either : (b : Bool) → (b || true) ≡ true
    either true = refl
    either false = refl

has_prefix-append : (s t : Bytes) → has_prefix s (s ++ t) ≡ true
unfolding has_prefix
has_prefix-append [] t = refl
has_prefix-append (a ∷ s) t = ground (arith, has_prefix-append s t)

-- Every label from a template starts with the identity and a colon.
abbrev Prefixed : {T : Type 0} → Im T → Bytes → Type 0
Prefixed im l = has_prefix (im.identity ++ colon ∷ []) l ≡ true

module _ {T : Type 0} (im : Im T) where
  add_label-Prefixed :
      (l : Option Bytes) (rest : List Bytes)
      → All (Prefixed im) rest
      → All (Prefixed im) (add_label im.identity l rest)
  unfolding add_label
  add_label-Prefixed none rest h = h
  add_label-Prefixed (some []) rest h = h
  add_label-Prefixed (some (c ∷ l)) rest h =
      elim (Bool-cases (ltb max_github_label_length (length (im.identity ++ colon ∷ c ∷ l)))) [
        | inl long ↦ rw long h
        | inr short ↦ rw short (
          rw (← append_assoc im.identity (colon ∷ []) (c ∷ l))
              (has_prefix-append (im.identity ++ colon ∷ []) (c ∷ l)),
          h,
        )
      ]

  run_templates-Prefixed :
      (ts : List (T → Option Bytes)) (d : T) → All (Prefixed im) (run_templates im.identity ts d)
  unfolding run_templates
  run_templates-Prefixed [] d = tt
  run_templates-Prefixed (t ∷ ts) d =
      add_label-Prefixed (t d) (run_templates im.identity ts d) (run_templates-Prefixed ts d)

  generate_labels-Prefixed : (d : T) → All (Prefixed im) (generate_labels im d)
  unfolding generate_labels
  generate_labels-Prefixed d = run_templates-Prefixed im.label_templates d

module _ {A : Type 0} (p : A → Bool) where
  keep_none : (xs : List A) → All (λ x. p x ≡ false) xs → keep p xs ≡ []
  keep_none [] h = refl
  keep_none (x ∷ xs) h = rw h.0 (keep_none xs h.1)

  keep_twice : (xs : List A) → keep p (keep p xs) ≡ keep p xs
  keep_twice [] = refl
  keep_twice (x ∷ xs) = elim (Bool-cases (p x)) [
    | inl e ↦ rw (e, e) (ap (λ l. x ∷ l) (keep_twice xs))
    | inr e ↦ rw e (keep_twice xs)
  ]

module _ {T : Type 0} (im : Im T) (path_label : Bytes) (extra : List Bytes) where
  abbrev is_user : Bytes → Bool
  is_user = is_user_label im path_label extra

  not_user_path : is_user path_label ≡ false
  unfolding is_user_label
  not_user_path = ground (arith, same_refl path_label)

  not_user_extra : (l : Bytes) → contains extra l ≡ true → is_user l ≡ false
  unfolding is_user_label
  not_user_extra l h = ground arith

  not_user-Prefixed : (l : Bytes) → Prefixed im l → is_user l ≡ false
  unfolding is_user_label
  not_user-Prefixed l h = ground arith

  -- Merging into labels that were merged changes nothing.
  merge_twice :
      (current reconciled : List Bytes)
      → All (Prefixed im) reconciled
      → let merged = merge_labels im current path_label reconciled extra in
        merge_labels im merged path_label reconciled extra ≡ merged
  unfolding merge_labels
  merge_twice current reconciled h =
      let own = keep is_user current in
      let rest = keep_none is_user (extra ++ reconciled) (
        All-append _ extra reconciled
          (All-map (λ l e. not_user_extra l e) extra (contains-All extra))
          (All-map (λ l e. not_user-Prefixed l e) reconciled h)) in
      let users : keep is_user (own ++ (extra ++ reconciled)) ≡ own =
        keep-append is_user own (extra ++ reconciled)
        ∙ ap (λ l. keep is_user own ++ l) rest
        ∙ append-nil (keep is_user own)
        ∙ keep_twice is_user current in
      rw (not_user_path, users)

includes-All : (t u : List Bytes) → All (λ l. contains u l ≡ true) t → includes t u ≡ true
unfolding includes
includes-All [] u h = refl
includes-All (l ∷ t) u h = rw (h.0, includes-All t u h.1)

label_sets_equal_refl :
    (lower : Bytes → Bytes) (ls : List Bytes) → label_sets_equal lower ls ls ≡ true
unfolding label_sets_equal
label_sets_equal_refl lower ls =
    let set = label_set lower ls in ground (arith, includes-All set set (contains-All set))

-- An issue that an update brought to its labels and its data needs no further update for the same
-- desired state, whatever labels it had before: Reconcile does not update an issue over and over.
pub updated_issue_settled :
    {T : Type 0} (im : Im T) (path_label : Bytes) (extra : List Bytes) (i : Issue) (d : T)
    → im.deep_equal d d ≡ true
    → let labels = merge_labels im i.labels path_label (generate_labels im d) extra in
      needs_update im path_label
        (record { issue = record i { labels = labels }; data_of = d })
        d
        extra
      ≡ false
unfolding needs_update
updated_issue_settled im path_label extra i d equal =
    let labels = merge_labels im i.labels path_label (generate_labels im d) extra in
    rw (
      equal,
      merge_twice im path_label extra i.labels (generate_labels im d)
          (generate_labels-Prefixed im d),
      label_sets_equal_refl im.to_lower labels,
    )
