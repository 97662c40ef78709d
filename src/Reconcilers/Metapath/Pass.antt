-- ===== src/Reconcilers/Metapath/Pass.antt =====
-- reconcilePathIssues, truncateDesired and priorFirst of metapathreconciler/issues.go. The clone
-- manager, the worktree, the repository's configuration and the analyzer are arguments.
pub mod Truncate
pub mod Kept
pub mod Tracked
use go_driftlessaf.Base.{
  ℕ, ◌-◌, String, Bool, true, false, ◌&&◌, ◌||◌, not, Option, none, some, List, [], ◌∷◌, ◌++◌,
  if◌then◌else◌, length, take, leb, ltb_ℤ, ℤ, pos, pos_part, max_ℤ, Bytes, flat_map,
}
use go_driftlessaf.Workqueue.Errors.{Err, other, wrapped}
use go_driftlessaf.Workqueue.Interface.{Reply, ok, err}
use go_driftlessaf.Reconcilers.Issues.{Im, Pages, IssueSession, new_session, existing}
use go_driftlessaf.Reconcilers.Issues.Session.{Log, Github, ◌>>=◌, annotate, reconcile}
use go_driftlessaf.Reconcilers.Metapath.{Diagnostic, IssueData, issue_equal, derive_issues}

-- `slices.ContainsFunc(prior, d.Equal)`
unfoldable pub is_tracked : List IssueData → IssueData → Bool
is_tracked [] d = false
is_tracked (p ∷ ps) d = issue_equal d p || is_tracked ps d

-- The loop of priorFirst: the entries with an open issue, and the others.
unfoldable pub split_prior : List IssueData → List IssueData → List IssueData × List IssueData
split_prior prior [] = ([], [])
split_prior prior (d ∷ ds) =
    let rest = split_prior prior ds in
    if is_tracked prior d then (d ∷ rest.0, rest.1) else (rest.0, d ∷ rest.1)

-- priorFirst
unfoldable pub prior_first : List IssueData → List IssueData → List IssueData × ℕ
prior_first desired prior =
    let parts = split_prior prior desired in
    let out = parts.0 ++ parts.1 in (out, length out - length parts.1)

-- `s[:n]` of a list with nothing behind it; none stands for the panic.
abbrev pub slice : {A : Type 0} → List A → ℕ → Option (List A)
slice xs n = if leb n (length xs) then some (take n xs) else none

-- truncateDesired
unfoldable pub truncate_desired : List IssueData → List IssueData → ℤ → Option (List IssueData)
truncate_desired desired prior limit =
    let ordered = prior_first desired prior in
    slice ordered.0 (pos_part (max_ℤ limit (pos ordered.1)))

-- What a pass over a path meets: the errors of the clone manager, of its lease and of the worktree,
-- if any; whether the mode is that of the repository's configuration, and what that says of fixes; the
-- answers to the two listings of the path's issues; the analyzer, for the prior findings; and whether
-- the worktree is clean afterwards.
pub record Pass : Type 0 where
  pub clone_error : Option Err
  pub lease_error : Option Err
  pub worktree_error : Option Err
  pub is_config : Bool
  pub config_should_fix : Reply Bool
  pub issue_manager : Im IssueData
  pub path : String
  pub path_bytes : Bytes
  pub first_listing : Pages
  pub second_listing : Pages
  pub path_exists : Bool
  pub analyze : List Diagnostic → Reply (List Diagnostic)
  pub grouping : String → List Diagnostic → List IssueData
  pub is_clean : Reply Bool
  pub labels : List Bytes
  pub label_fn : Option (List Diagnostic → List Bytes)
  pub close_message : String

abbrev pub Outcome : Type 0
Outcome = Reply (List String) × Log

abbrev stop : String → Err → Log → Outcome
stop s e log = (err (wrapped s e), log)

-- A panic of the slice is an error here.
abbrev panicked : Err
panicked = wrapped "slice bounds out of range" (other 0)

unfoldable pub reopen :
    List IssueData
    → Reply (IssueSession IssueData)
    → Reply (IssueSession IssueData × List IssueData)
reopen kept (err e) = err (wrapped "create issue session" e)
reopen kept (ok s) = ok (s, kept)

unfoldable pub cut :
    Pass
    → IssueSession IssueData
    → Option (List IssueData)
    → Reply (IssueSession IssueData × List IssueData)
unfolding reopen
cut p s none = err panicked
cut p s (some kept) =
    if ltb_ℤ s.max_desired (pos (length kept))
    then reopen kept
        (new_session p.issue_manager p.path_bytes (pos (length kept) ∷ []) p.second_listing)
    else ok (s, kept)

-- The session that the desired state goes to, and what of it is kept.
unfoldable pub fit_session :
    Pass → IssueSession IssueData → List IssueData → Reply (IssueSession IssueData × List IssueData)
unfolding cut
fit_session p s desired =
    if ltb_ℤ (pos 0) s.max_desired && ltb_ℤ s.max_desired (pos (length desired))
    then cut p s (truncate_desired desired (existing s) s.max_desired)
    else ok (s, desired)

added_labels : Option (List Diagnostic → List Bytes) → List Diagnostic → List Bytes
added_labels none diags = []
added_labels (some f) diags = f diags

abbrev pub all_labels : Pass → List Diagnostic → List Bytes
unfolding added_labels
all_labels p diags = p.labels ++ added_labels p.label_fn diags

-- From the truncation of the desired state to the end.
unfoldable pub file_issues :
    Github → Pass → IssueSession IssueData → List IssueData → List Diagnostic → Log → Outcome
file_issues gh p s desired diags log = (fit_session p s desired, log) >>= λ r l.
    annotate "reconcile issues" (reconcile gh r.0 r.1 (all_labels p diags) p.close_message l)

-- ensureCleanWorktree, before the issues are filed.
unfoldable pub check_clean : Reply Bool → Outcome → Log → Outcome
check_clean (err e) next log = stop "get worktree status" e log
check_clean (ok false) next log = (err (wrapped "analyzer modified the worktree" (other 0)), log)
check_clean (ok true) next log = next

unfoldable pub file_derived :
    Github
    → Pass
    → IssueSession IssueData
    → Reply (List IssueData × List Diagnostic)
    → Log
    → Outcome
unfolding check_clean
file_derived gh p s (err e) log = (err e, log)
file_derived gh p s (ok (desired, diags)) log =
    check_clean p.is_clean (file_issues gh p s desired diags log) log

abbrev pub prior_findings : IssueSession IssueData → List Diagnostic
prior_findings s = flat_map (λ (i : IssueData). i.diagnostics) (existing s)

-- What deriveIssues gives in a session.
abbrev pub derived : Pass → IssueSession IssueData → Reply (List IssueData × List Diagnostic)
derived p s = derive_issues p.grouping p.path (p.analyze (prior_findings s))

unfoldable pub in_session : Github → Pass → Reply (IssueSession IssueData) → Log → Outcome
unfolding file_derived
in_session gh p (err e) log = stop "create issue session" e log
in_session gh p (ok s) log =
    if p.path_exists
    then file_derived gh p s (derived p s) log
    else annotate "reconcile issues" (reconcile gh s [] [] p.close_message log)

unfoldable pub if_fixing : Reply Bool → Outcome → Log → Outcome
if_fixing (err e) next log = stop "load repo config" e log
if_fixing (ok false) next log = (ok [], log)
if_fixing (ok true) next log = next

unfoldable pub unless : Option Err → String → Outcome → Log → Outcome
unless none s next log = next
unless (some e) s next log = stop s e log

-- reconcilePathIssues, for a resource that is a path; it returns the URLs that it logs.
unfoldable pub reconcile_path_issues : Github → Pass → Log → Outcome
unfolding in_session if_fixing unless
reconcile_path_issues gh p log =
    let session = new_session p.issue_manager p.path_bytes [] p.first_listing in
    let run = in_session gh p session log in
    let configured = if p.is_config then if_fixing p.config_should_fix run log else run in
    unless p.clone_error "get clone manager"
      (unless p.lease_error "acquire lease" (unless p.worktree_error "get worktree" configured log)
        log)
      log
