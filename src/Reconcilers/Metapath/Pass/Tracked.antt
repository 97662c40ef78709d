-- ===== src/Reconcilers/Metapath/Pass/Tracked.antt =====
-- What a whole pass of metapathreconciler/issues.go asks of GitHub.
use go_driftlessaf.Base.{
  ◌≡◌, refl, String, Bool, true, false, Option, none, some, List, [], ◌∷◌, map, if◌then◌else◌, pos,
  All, arith, ◌<ℤ◌, eq_iff,
}
use go_driftlessaf.Workqueue.Errors.{Err}
use go_driftlessaf.Workqueue.Interface.{Reply, ok, err}
use go_driftlessaf.Reconcilers.Issues.{Im, ExistingIssue, IssueSession, new_session, existing}
use go_driftlessaf.Reconcilers.Issues.Open.{new_session_complete}
use go_driftlessaf.Reconcilers.Issues.Session.{
  Call, Log, Github, ◌>>=◌, annotate, reconcile, find_matching_issue,
}
use go_driftlessaf.Reconcilers.Issues.Reconcile.Safety.{closes, reconcile_keeps_matched}
use go_driftlessaf.Reconcilers.Metapath.{Diagnostic, IssueData, issue_equal}
use go_driftlessaf.Reconcilers.Metapath.Derive.{derive_issues-Pairs}
use go_driftlessaf.Reconcilers.Metapath.Pass.{
  Pass, is_tracked, fit_session, file_issues, check_clean, file_derived, in_session, if_fixing,
  unless, reconcile_path_issues, derived, all_labels, Outcome,
}
use go_driftlessaf.Reconcilers.Metapath.Pass.Kept.{In, fit_session-Fitted}

-- The manager of a pass matches issues by their key, as IssueData does.
abbrev pub MatchesByKey : Pass → Type 0
MatchesByKey p = (a b : IssueData) → p.issue_manager.equal a b ≡ issue_equal a b

module _ (P : Call → Type 0) where
  -- The calls of an outcome all have the property.
  abbrev Quiet : Outcome → Type 0
  Quiet o = All P o.1

  annotate-Quiet : (t : String) (o : Outcome) → Quiet o → Quiet (annotate t o)
  annotate-Quiet t (ok a, log) h = h
  annotate-Quiet t (err e, log) h = h

  unless-Quiet : (e : Option Err) (t : String) (o : Outcome) → Quiet o → Quiet (unless e t o [])
  unfolding unless
  unless-Quiet none t o h = h
  unless-Quiet (some e) t o h = tt

  if_fixing-Quiet : (r : Reply Bool) (o : Outcome) → Quiet o → Quiet (if_fixing r o [])
  unfolding if_fixing
  if_fixing-Quiet (err e) o h = tt
  if_fixing-Quiet (ok true) o h = h
  if_fixing-Quiet (ok false) o h = tt

  check_clean-Quiet : (r : Reply Bool) (o : Outcome) → Quiet o → Quiet (check_clean r o [])
  unfolding check_clean
  check_clean-Quiet (err e) o h = tt
  check_clean-Quiet (ok true) o h = h
  check_clean-Quiet (ok false) o h = tt

  taken-Quiet : (b : Bool) (x y : Outcome) → b ≡ true → Quiet x → Quiet (if b then x else y)
  taken-Quiet b x y e h = rw e h

  either-Quiet : (b : Bool) (x y : Outcome) → Quiet x → Quiet y → Quiet (if b then x else y)
  either-Quiet true x y h k = h
  either-Quiet false x y h k = k

  file_derived-Quiet :
      (gh : Github) (p : Pass) (s : IssueSession IssueData) (desired : List IssueData)
      (diags : List Diagnostic) (x : Reply (List IssueData × List Diagnostic))
      → x ≡ ok (desired, diags)
      → Quiet (file_issues gh p s desired diags [])
      → Quiet (file_derived gh p s x [])
  unfolding file_derived
  file_derived-Quiet gh p s desired diags x e h =
      rw e (check_clean-Quiet p.is_clean (file_issues gh p s desired diags []) h)

find_matching-tracked :
    (im : Im IssueData) (es : List (ExistingIssue IssueData)) (d : IssueData)
    (e : ExistingIssue IssueData)
    → ((a b : IssueData) → im.equal a b ≡ issue_equal a b)
    → find_matching_issue im es d ≡ some e
    → is_tracked (map (λ (x : ExistingIssue IssueData). x.data_of) es) d ≡ true
unfolding find_matching_issue is_tracked
find_matching-tracked im [] d e by_key found = cc
find_matching-tracked im (x ∷ es) d e by_key found = ground (
  arith,
  by_key x.data_of d,
  eq_iff x.data_of.key d.key,
  eq_iff d.key x.data_of.key,
  find_matching-tracked im es d e by_key,
)

file_issues_keeps :
    (gh : Github) (p : Pass) (s : IssueSession IssueData) (desired : List IssueData)
    (diags : List Diagnostic) (d : IssueData) (e : ExistingIssue IssueData)
    → ((r : IssueSession IssueData × List IssueData)
        → fit_session p s desired ≡ ok r
        → In d r.1 × (find_matching_issue r.0.manager r.0.existing_issues d ≡ some e))
    → All (λ c. closes e.issue.number c ≡ false) (file_issues gh p s desired diags []).1
unfolding file_issues ◌>>=◌
file_issues_keeps gh p s desired diags d e held = go (fit_session p s desired) held
  where
    P : Call → Type 0
    P c = closes e.issue.number c ≡ false

    next : IssueSession IssueData × List IssueData → Log → Outcome
    next r l =
        annotate "reconcile issues" (reconcile gh r.0 r.1 (all_labels p diags) p.close_message l)

    go :
        (x : Reply (IssueSession IssueData × List IssueData))
        → ((r : IssueSession IssueData × List IssueData)
            → x ≡ ok r
            → In d r.1 × (find_matching_issue r.0.manager r.0.existing_issues d ≡ some e))
        → All P ((x, []) >>= next).1
    go (err f) held = tt
    go (ok r) held =
        let ((before, after, split), matches) = held r refl in
        annotate-Quiet P "reconcile issues"
          (reconcile gh r.0 r.1 (all_labels p diags) p.close_message [])
          (rw split (
            reconcile_keeps_matched gh r.0 before d after (all_labels p diags) p.close_message e
              matches))

-- A pass never closes an issue whose finding is still reported, even if the findings are more than the
-- session takes: if the two listings of the path's issues agree and the analyzer's findings still give
-- an entry that matches an open issue, no call of the pass closes that issue or announces its closing.
pub pass_keeps_tracked :
    (gh : Github) (p : Pass) (s : IssueSession IssueData) (desired : List IssueData)
    (diags : List Diagnostic) (d : IssueData) (e : ExistingIssue IssueData)
    → MatchesByKey p
    → p.path_exists ≡ true
    → p.first_listing ≡ p.second_listing
    → new_session p.issue_manager p.path_bytes [] p.first_listing ≡ ok s
    → pos 0 <ℤ s.max_desired
    → derived p s ≡ ok (desired, diags)
    → In d desired
    → find_matching_issue s.manager s.existing_issues d ≡ some e
    → All (λ c. closes e.issue.number c ≡ false) (reconcile_path_issues gh p []).1
unfolding reconcile_path_issues in_session existing
pass_keeps_tracked gh p s desired diags d e by_key exists same opened positive found inside
      matches =
    let P : Call → Type 0 = λ c. closes e.issue.number c ≡ false in
    let own = derive_issues-Pairs p.grouping p.path _ desired diags found in
    let (all, listed, managed, issues, limit, few) =
      new_session_complete p.issue_manager p.path_bytes [] p.first_listing s opened in
    let tracked : is_tracked (existing s) d ≡ true =
      find_matching-tracked s.manager s.existing_issues d e (rw managed by_key) matches in
    let filed = file_issues_keeps gh p s desired diags d e (λ r fitted.
      let f = fit_session-Fitted p s desired opened r positive own fitted in
      (f.keeps d inside tracked, rw (f.issues same, f.manager, ← managed) matches)) in
    let run : All P (in_session gh p (ok s) []).1 =
      taken-Quiet P p.path_exists _ _ exists
        (file_derived-Quiet P gh p s desired diags (derived p s) found filed) in
    let configured =
      either-Quiet P p.is_config (if_fixing p.config_should_fix (in_session gh p (ok s) []) [])
        (in_session gh p (ok s) []) (if_fixing-Quiet P p.config_should_fix _ run) run in
    rw opened (
      unless-Quiet P p.clone_error _ _
        (unless-Quiet P p.lease_error _ _ (unless-Quiet P p.worktree_error _ _ configured)))
