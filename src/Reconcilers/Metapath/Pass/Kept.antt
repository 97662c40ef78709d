-- ===== src/Reconcilers/Metapath/Pass/Kept.antt =====
-- reconcilePathIssues of metapathreconciler/issues.go together with the issue session that it drives.
use mathlib.Core.List.{append_assoc}
use mathlib.Core.List.Perm
use mathlib.Core.Bool.{Bool-set}
use go_driftlessaf.Base.{
  ◌-◌, ◌≡◌, refl, ◌∙◌, sym, ap, true, Option, none, some, List, [], ◌∷◌, ◌++◌, length, take, ltb_ℤ,
  pos, keep-append, All, Pairs, Pairs-perm, Bool-cases, inl, inr, arith, ◌≤ℤ◌, ◌<ℤ◌,
}
use go_driftlessaf.Workqueue.Interface.{Reply, ok, err}
use go_driftlessaf.Reconcilers.Issues.{IssueSession, new_session, existing, session_max}
use go_driftlessaf.Reconcilers.Issues.Open.{new_session_complete, new_session-same}
use go_driftlessaf.Reconcilers.Metapath.{IssueData}
use go_driftlessaf.Reconcilers.Metapath.Grouping.Partition.{HasOwnKey, str_eq-flip}
use go_driftlessaf.Reconcilers.Metapath.Pass.{
  Pass, is_tracked, truncate_desired, cut, reopen, fit_session,
}
use go_driftlessaf.Reconcilers.Metapath.Pass.Truncate.{
  tracked, fresh, kept_count, truncate_desired-append, truncate_desired_sheds_new,
}

-- An entry of a list.
abbrev pub In : IssueData → List IssueData → Type 0
In d ds = (before after : List IssueData) × (ds ≡ before ++ d ∷ after)

tracked-In :
    (prior ds more : List IssueData) (d : IssueData)
    → In d ds
    → is_tracked prior d ≡ true
    → In d (tracked prior ds ++ more)
tracked-In prior ds more d (before, after, e) h = (
  tracked prior before,
  tracked prior after ++ more,
  ap (λ xs. tracked prior xs ++ more) e
      ∙ ap (λ xs. xs ++ more) (keep-append (is_tracked prior) before (d ∷ after))
      ∙ rw h (append_assoc (tracked prior before) (d ∷ tracked prior after) more),
)

Pairs-first : (xs ys : List IssueData) → Pairs HasOwnKey (xs ++ ys) → Pairs HasOwnKey xs
Pairs-first [] ys h = tt
Pairs-first (x ∷ xs) ys h = (first xs h.0, Pairs-first xs ys h.1)
  where
    first : (zs : List IssueData) → All (HasOwnKey x) (zs ++ ys) → All (HasOwnKey x) zs
    first [] h = tt
    first (z ∷ zs) h = (h.0, first zs h.1)

-- What is known of the session and the entries that the pass goes on with.
pub record Fitted (p : Pass) (s : IssueSession IssueData) (desired : List IssueData)
    (r : IssueSession IssueData × List IssueData) : Type 0 where
  pub manager : r.0.manager ≡ p.issue_manager
  pub own : Pairs HasOwnKey r.1
  pub fits : pos (length r.1) ≤ℤ r.0.max_desired
  pub issues : p.first_listing ≡ p.second_listing → r.0.existing_issues ≡ s.existing_issues
  pub keeps : (d : IssueData) → In d desired → is_tracked (existing s) d ≡ true → In d r.1

kept-Fitted :
    (s : IssueSession IssueData) (desired kept : List IssueData)
    → Pairs HasOwnKey desired
    → pos 0 <ℤ s.max_desired
    → s.max_desired <ℤ pos (length desired)
    → truncate_desired desired (existing s) s.max_desired ≡ some kept
    → Pairs HasOwnKey kept
      × (pos 0 <ℤ pos (length kept))
      × ((d : IssueData) → In d desired → is_tracked (existing s) d ≡ true → In d kept)
kept-Fitted s desired kept own positive over cut_off =
    let prior = existing s in
    let (kept', shed, cut_off', parts, new, count) =
      truncate_desired_sheds_new prior desired s.max_desired (omega arith) in
    let limit = s.max_desired in
    let taken =
      take (kept_count prior desired limit - length (tracked prior desired))
        (fresh prior desired) in
    let same_kept : kept' ≡ kept = ap (get_or_nil) (sym cut_off' ∙ cut_off) in
    let is_cut : tracked prior desired ++ taken ≡ kept =
      ap get_or_nil (sym (truncate_desired-append prior desired limit (omega arith)) ∙ cut_off) in
    (
      rw (← same_kept) (
          Pairs-first kept' shed (
            Pairs-perm HasOwnKey (λ a b. Bool-set _ _) (λ a b. str_eq-flip a.key b.key)
              (Perm.symm parts) own)),
      rw (← same_kept) (ground arith),
      λ d inside h. rw (← is_cut) (tracked-In prior desired taken d inside h),
    )
  where
    get_or_nil : Option (List IssueData) → List IssueData
    get_or_nil none = []
    get_or_nil (some xs) = xs

abbrev chosen :
    IssueSession IssueData × List IssueData
    → Reply (IssueSession IssueData × List IssueData)
    → IssueSession IssueData × List IssueData
chosen d (err e) = d
chosen d (ok r) = r

module _ (p : Pass) (s : IssueSession IssueData) (desired : List IssueData)
    (opened : new_session p.issue_manager p.path_bytes [] p.first_listing ≡ ok s) where
  Keeps : List IssueData → Type 0
  Keeps kept = (d : IssueData) → In d desired → is_tracked (existing s) d ≡ true → In d kept

  opened_manager : s.manager ≡ p.issue_manager
  opened_manager =
      let (all, listed, managed, issues, limit, few) =
        new_session_complete p.issue_manager p.path_bytes [] p.first_listing s opened in
      managed

  same-Fitted :
      (kept : List IssueData)
      → Pairs HasOwnKey kept
      → pos (length kept) ≤ℤ s.max_desired
      → Keeps kept
      → Fitted p s desired (s, kept)
  unfolding Keeps
  same-Fitted kept own fits keeps = record {
    manager = opened_manager;
    own = own;
    fits = fits;
    issues = λ e. refl;
    keeps = keeps;
  }

  reopen-Fitted :
      (kept : List IssueData) (r : IssueSession IssueData × List IssueData)
      (answer : Reply (IssueSession IssueData))
      → new_session p.issue_manager p.path_bytes (pos (length kept) ∷ []) p.second_listing ≡ answer
      → reopen kept answer ≡ ok r
      → pos 0 <ℤ pos (length kept)
      → Pairs HasOwnKey kept
      → Keeps kept
      → Fitted p s desired r
  unfolding Keeps reopen session_max
  reopen-Fitted kept r (err e) again done some_kept own keeps = cc
  reopen-Fitted kept r (ok s') again done some_kept own keeps =
      let limits = pos (length kept) ∷ [] in
      let (all, listed, managed, issues, limit, few) =
        new_session_complete p.issue_manager p.path_bytes limits p.second_listing s' again in
      let e : (s', kept) ≡ r = ap (chosen r) done in
      rw (← e) (record {
        manager = managed;
        own = own;
        fits = ground (arith, limit);
        issues = λ same.
            new_session-same p.issue_manager p.path_bytes [] limits p.second_listing s s'
              (rw (← same) opened) again;
        keeps = keeps;
      })

  cut-Fitted :
      (kept : List IssueData) (r : IssueSession IssueData × List IssueData)
      → cut p s (some kept) ≡ ok r
      → pos 0 <ℤ pos (length kept)
      → Pairs HasOwnKey kept
      → Keeps kept
      → Fitted p s desired r
  unfolding cut
  cut-Fitted kept r done some_kept own keeps =
      elim (Bool-cases (ltb_ℤ s.max_desired (pos (length kept)))) [
        | inl over ↦
            reopen-Fitted kept r
              (new_session p.issue_manager p.path_bytes (pos (length kept) ∷ []) p.second_listing)
              refl (ground (arith, done)) some_kept own keeps
        | inr fits ↦
            let e : (s, kept) ≡ r = ground arith in
            rw (← e) (same-Fitted kept own (ground arith) keeps)
      ]

  pub fit_session-Fitted :
      (r : IssueSession IssueData × List IssueData)
      → pos 0 <ℤ s.max_desired
      → Pairs HasOwnKey desired
      → fit_session p s desired ≡ ok r
      → Fitted p s desired r
  unfolding fit_session Keeps
  fit_session-Fitted r positive own fitted =
      elim (Bool-cases (ltb_ℤ s.max_desired (pos (length desired)))) [
        | inr fits ↦
            let e : (s, desired) ≡ r = ground arith in
            rw (← e) (same-Fitted desired own (ground arith) (λ d inside h. inside))
        | inl over ↦
            let prior = existing s in
            let (kept, shed, cut_off, parts, new, count) =
              truncate_desired_sheds_new prior desired s.max_desired (ground arith) in
            let (kept_own, some_kept, keeps) =
              kept-Fitted s desired kept own positive (ground arith) cut_off in
            let done : cut p s (truncate_desired desired prior s.max_desired) ≡ ok r =
              ground (arith, fitted) in
            cut-Fitted kept r (ap (cut p s) (sym cut_off) ∙ done) some_kept kept_own keeps
      ]
