-- ===== src/Examples/Issues.antt =====
-- Issues of reconcilers/githubreconciler/issuemanager and metapathreconciler, on concrete findings.
use mathlib.Core.List.{Perm}
use mathlib.Core.List.Perm
use go_driftlessaf.Base.{◌+ℤ◌}
use go_driftlessaf.Reconcilers.Metapath.Diff.{
  has_added, is_kept, add_hunks, in_ranges, add_lines, add_hunk,
}
use go_driftlessaf.Reconcilers.Issues.Labels.{has_skip_label, contains}
use go_driftlessaf.Reconcilers.Issues.Session.{find_matching_issue}
use go_driftlessaf.Reconcilers.Issues.{list_issues, construct_path_label}
use go_driftlessaf.Reconcilers.Metapath.{
  compare_diagnostics, add_diagnostic, rule_issue, by_rule, sort_diagnostics, repeats_key,
}
use go_driftlessaf.Base.{
  compare_int, sort, compare_text, insort, lookup, less, same, to_int64, insert,
}
use go_driftlessaf.Base.{
  ℕ, ◌+◌, ◌≡◌, refl, String, true, false, none, some, List, [], ◌∷◌, ◌++◌, if◌then◌else◌, length,
  leb, pos, max_ℤ, ascii, map, All, flat_map, Ordered, Pairs, keep, arith, ◌<ℤ◌, ◌&&◌,
}
use go_driftlessaf.Workqueue.Interface.{ok}
use go_driftlessaf.Reconcilers.Issues.{
  Im, Issue, ExistingIssue, IssueSession, Pages, last_page, new_session, decode_issues, session_max,
  double, default_max_existing_issues,
}
use go_driftlessaf.Reconcilers.Issues.Labels.{merge_labels, generate_labels, needs_update}
use go_driftlessaf.Reconcilers.Issues.Labels.Settled.{updated_issue_settled}
use go_driftlessaf.Reconcilers.Issues.Open.{Listed, new_session_complete}
use go_driftlessaf.Reconcilers.Issues.Session.{Github, reconcile}
use go_driftlessaf.Reconcilers.Issues.Reconcile.Safety.{addresses, closes, reconcile_skips}
use go_driftlessaf.Reconcilers.Metapath.{
  Diagnostic, IssueData, ByRule, issue_equal, issue_before, group_by_rule, derive_issues,
}
use go_driftlessaf.Reconcilers.Metapath.Grouping.Partition.{
  IsFiled, HasOwnKey, group_by_rule_partitions,
}
use go_driftlessaf.Reconcilers.Metapath.Diff.{DiffFile, parse_diff, filter_to_changed_lines}
use go_driftlessaf.Reconcilers.Metapath.Diff.Changed.{is_changed, filter_to_changed_lines-keep}
use go_driftlessaf.Reconcilers.Metapath.Pass.{
  Pass, is_tracked, truncate_desired, reconcile_path_issues, derived,
}
use go_driftlessaf.Reconcilers.Metapath.Pass.Truncate.{tracked, truncate_desired_sheds_new}
use go_driftlessaf.Reconcilers.Metapath.Pass.Tracked.{pass_keeps_tracked}

-- Findings of three rules in one file; the second finding of "shadow" comes first.
abbrev finding : String → ℕ → Diagnostic
finding rule line = record {
  path = "main.go";
  line = pos line;
  message = "found";
  rule = rule;
  fixed = false;
}

abbrev findings : List Diagnostic
findings = finding "shadow" 9 ∷ finding "errcheck" 4 ∷ finding "shadow" 2 ∷ []

abbrev issue_for : String → List Diagnostic → IssueData
issue_for rule diags = record { key = rule; path = "main.go"; rule = rule; diagnostics = diags }

abbrev shadow_issue : IssueData
shadow_issue = issue_for "shadow" (finding "shadow" 2 ∷ finding "shadow" 9 ∷ [])

abbrev errcheck_issue : IssueData
errcheck_issue = issue_for "errcheck" (finding "errcheck" 4 ∷ [])

abbrev as_listed : ByRule → ByRule
as_listed m = m

group_by_rule_partitions_example :
    Perm
      (flat_map (λ (i : IssueData). i.diagnostics) (group_by_rule as_listed "main.go" findings))
      findings
    × All IsFiled (group_by_rule as_listed "main.go" findings)
    × Ordered issue_before (group_by_rule as_listed "main.go" findings)
    × Pairs HasOwnKey (group_by_rule as_listed "main.go" findings)
group_by_rule_partitions_example =
    group_by_rule_partitions as_listed "main.go" findings (λ m. Perm.refl m)

truncate_desired_sheds_new_example :
    (kept shed : List IssueData) × (truncate_desired
        (errcheck_issue ∷ shadow_issue ∷ [])
        (shadow_issue ∷ [])
        (pos 1)
      ≡ some kept)
    × Perm (kept ++ shed) (errcheck_issue ∷ shadow_issue ∷ [])
    × All (λ d. is_tracked (shadow_issue ∷ []) d ≡ false) shed
    × (pos (length kept)
        ≡ max_ℤ
            (pos 1)
            (pos (length (tracked (shadow_issue ∷ []) (errcheck_issue ∷ shadow_issue ∷ [])))))
truncate_desired_sheds_new_example =
    truncate_desired_sheds_new (shadow_issue ∷ []) (errcheck_issue ∷ shadow_issue ∷ []) (pos 1)
      (omega arith)

-- An issue manager whose bodies are the rules.
abbrev lower_byte : ℕ → ℕ
lower_byte c = if leb 65 c && leb c 90 then c + 32 else c

abbrev manager : Im IssueData
manager = record {
  identity = ascii "lint";
  title_template = λ d. ok d.key;
  body_template = λ d. ok d.rule;
  embed = λ body d. ok body;
  extract = λ body. ok (issue_for body []);
  label_templates = (λ d. some (ascii d.rule)) ∷ [];
  managed_labels = [];
  max_desired_issues = pos 1;
  equal = issue_equal;
  deep_equal = issue_equal;
  to_lower = map lower_byte;
  sha256_hex = λ s. s;
}

abbrev tracked_issue : Issue
tracked_issue = record {
  number = 7;
  html_url = "issues/7";
  labels = ascii "lint:main.go" ∷ ascii "urgent" ∷ [];
  body = "shadow";
  is_pull_request = false;
}

abbrev skipped_issue : Issue
skipped_issue = record {
  number = 8;
  html_url = "issues/8";
  labels = ascii "lint:main.go" ∷ ascii "skip:lint" ∷ [];
  body = "unused";
  is_pull_request = false;
}

abbrev listing : Pages
listing = last_page (ok (tracked_issue ∷ skipped_issue ∷ []))

abbrev tracked_entry : ExistingIssue IssueData
tracked_entry = record { issue = tracked_issue; data_of = issue_for "shadow" [] }

abbrev session : IssueSession IssueData
session = record {
  manager = manager;
  path_label = ascii "lint:main.go";
  existing_issues =
      tracked_entry ∷ record { issue = skipped_issue; data_of = issue_for "unused" [] } ∷ [];
  max_desired = pos 1;
}

opened : new_session manager (ascii "main.go") [] listing ≡ ok session
unfolding new_session list_issues session_max to_int64 construct_path_label decode_issues
opened = refl

-- GitHub answers every call.
abbrev github : Github
github log c = ok "issues/9"

new_session_complete_example :
    (all : List Issue) × Listed listing all
    × (session.manager ≡ manager)
    × (session.existing_issues ≡ decode_issues manager all)
    × (session.max_desired ≡ session_max manager.max_desired_issues [])
    × (pos (length all) <ℤ max_ℤ (double session.max_desired) default_max_existing_issues)
new_session_complete_example =
    new_session_complete manager (ascii "main.go") [] listing session opened

reconcile_skips_example :
    All (λ c. addresses 8 c ≡ false) (reconcile github session (errcheck_issue ∷ []) [] "gone" []).1
unfolding has_skip_label contains same
reconcile_skips_example =
    reconcile_skips github session (errcheck_issue ∷ []) [] "gone" 8
      ((λ e. absurd (omega (arith, e))), ((λ e. refl), tt))

updated_issue_settled_example :
    needs_update manager session.path_label
      (record {
        issue = record tracked_issue {
          labels =
              merge_labels manager tracked_issue.labels session.path_label
                (generate_labels manager shadow_issue)
                [];
        };
        data_of = shadow_issue;
      })
      shadow_issue
      []
    ≡ false
updated_issue_settled_example =
    updated_issue_settled manager session.path_label [] tracked_issue shadow_issue refl

-- A pass whose findings are one more than the limit.
abbrev pass : Pass
pass = record {
  clone_error = none;
  lease_error = none;
  worktree_error = none;
  is_config = true;
  config_should_fix = ok true;
  issue_manager = manager;
  path = "main.go";
  path_bytes = ascii "main.go";
  first_listing = listing;
  second_listing = listing;
  path_exists = true;
  analyze = λ prior. ok findings;
  grouping = group_by_rule as_listed;
  is_clean = ok true;
  labels = [];
  label_fn = none;
  close_message = "gone";
}

derived_here : derived pass session ≡ ok (errcheck_issue ∷ shadow_issue ∷ [], findings)
unfolding derive_issues repeats_key group_by_rule sort by_rule add_diagnostic insert insort
    compare_text less rule_issue lookup sort_diagnostics compare_diagnostics compare_int
derived_here = refl

pass_keeps_tracked_example : All (λ c. closes 7 c ≡ false) (reconcile_path_issues github pass []).1
unfolding find_matching_issue
pass_keeps_tracked_example =
    pass_keeps_tracked github pass session (errcheck_issue ∷ shadow_issue ∷ []) findings
      shadow_issue tracked_entry (λ a b. refl) refl refl opened (omega arith) derived_here
      (errcheck_issue ∷ [], [], refl) refl

-- Lines 4 and 5 of a file are new, and line 8.
abbrev diff : List DiffFile
diff =
    record {
      new_name = "main.go";
      hunks =
          (record { added = false; number = pos 3 }
            ∷ record { added = true; number = pos 4 }
            ∷ record { added = true; number = pos 5 }
            ∷ [])
          ∷ (record { added = true; number = pos 8 } ∷ [])
          ∷ [];
    }
    ∷ []

filter_to_changed_lines-keep_example :
    filter_to_changed_lines (parse_diff diff []) findings ≡ keep (is_changed diff) findings
filter_to_changed_lines-keep_example = filter_to_changed_lines-keep diff findings

filtered : filter_to_changed_lines (parse_diff diff []) findings ≡ finding "errcheck" 4 ∷ []
unfolding filter_to_changed_lines is_kept lookup parse_diff add_hunks add_hunk has_added insert
    in_ranges add_lines ◌+ℤ◌
filtered = refl
