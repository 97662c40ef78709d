-- ===== src/Reconcilers/Metapath.antt =====
-- reconcilers/githubreconciler/metapathreconciler: the findings of an analyzer as issues. Here the
-- findings (types.go) and their grouping (grouping.go); the order in which Go walks over a map is an
-- argument.
pub mod Grouping
pub mod Derive
pub mod Pass
pub mod Diff
use go_driftlessaf.Base.{
  ℕ, String, Bool, true, false, not, none, some, List, [], ◌∷◌, ◌++◌, map, if◌then◌else◌, ℤ, pos,
  ltb_ℤ, Bytes, ascii, keep, sort, lookup, insert, get_or, is_some, str_eq, compare_text,
  compare_int, or_else,
}
use go_driftlessaf.Decimal.{format_int}
use go_driftlessaf.Workqueue.Errors.{Err, other, wrapped}
use go_driftlessaf.Workqueue.Interface.{Reply, ok, err}

pub record Diagnostic : Type 0 where
  pub path : String
  pub line : ℤ
  pub message : String
  pub rule : String
  pub fixed : Bool

-- The fields of callbacks.Finding that AsFinding sets; its kind is always that of a CI check.
pub record Finding : Type 0 where
  pub identifier : Bytes
  pub name : Bytes
  pub details : Bytes

-- A line that is there, behind a colon.
line_suffix : ℤ → Bytes
line_suffix n = if ltb_ℤ (pos 0) n then ascii ":" ++ format_int n else []

-- AsFinding
unfoldable pub as_finding : Diagnostic → Finding
unfolding line_suffix
as_finding d =
    let id = ascii d.rule ++ ascii ":" ++ ascii d.path ++ line_suffix d.line in
    record {
      identifier = id;
      name = id;
      details = ascii d.path ++ line_suffix d.line ++ ascii ": " ++ ascii d.message;
    }

-- The comparison of sortDiagnostics.
unfoldable pub compare_diagnostics : Diagnostic → Diagnostic → ℤ
compare_diagnostics a b = or_else (compare_text a.path b.path) (
    or_else (compare_int a.line b.line)
      (or_else (compare_text a.rule b.rule) (compare_text a.message b.message)))

abbrev pub diagnostic_before : Diagnostic → Diagnostic → Bool
diagnostic_before a b = ltb_ℤ (compare_diagnostics a b) (pos 0)

-- sortDiagnostics
unfoldable pub sort_diagnostics : List Diagnostic → List Diagnostic
sort_diagnostics diags = sort diagnostic_before diags

pub record IssueData : Type 0 where
  pub key : String
  pub path : String
  pub rule : String
  pub diagnostics : List Diagnostic

-- Equal
abbrev pub issue_equal : IssueData → IssueData → Bool
issue_equal d o = str_eq d.key o.key

abbrev pub ByRule : Type 0
ByRule = List (String × List Diagnostic)

-- `byRule[d.Rule] = append(byRule[d.Rule], d)`
unfoldable pub add_diagnostic : Diagnostic → ByRule → ByRule
add_diagnostic d m = insert d.rule (get_or (lookup d.rule m) [] ++ d ∷ []) m

unfoldable pub by_rule : ByRule → List Diagnostic → ByRule
by_rule m [] = m
by_rule m (d ∷ ds) = by_rule (add_diagnostic d m) ds

unfoldable pub rule_issue : String → String × List Diagnostic → IssueData
rule_issue path group = record {
  key = group.0;
  path = path;
  rule = group.0;
  diagnostics = sort_diagnostics group.1;
}

abbrev pub issue_before : IssueData → IssueData → Bool
issue_before a b = ltb_ℤ (compare_text a.key b.key) (pos 0)

-- GroupByRule, for the path of the resource; `order` is the order of the walk over the map.
unfoldable pub group_by_rule : (ByRule → ByRule) → String → List Diagnostic → List IssueData
group_by_rule order path diags =
    sort issue_before (map (rule_issue path) (order (by_rule [] diags)))

-- GroupByPath
unfoldable pub group_by_path : String → List Diagnostic → List IssueData
group_by_path path [] = []
group_by_path path (d ∷ ds) =
    record { key = path; path = path; rule = ""; diagnostics = sort_diagnostics (d ∷ ds) } ∷ []

-- Whether a key of the issues was seen before.
unfoldable pub repeats_key : List (String × Unit {0}) → List IssueData → Bool
repeats_key seen [] = false
repeats_key seen (d ∷ ds) =
    let rest = repeats_key (insert d.key tt seen) ds in
    if is_some (lookup d.key seen) then true else rest

abbrev pub checked : List IssueData → List Diagnostic → Reply (List IssueData × List Diagnostic)
checked desired diags =
    if repeats_key [] desired
    then err (wrapped "grouping produced duplicate key" (other 0))
    else ok (desired, diags)

-- deriveIssues, for the analyzer's result on the path.
unfoldable pub derive_issues :
    (String → List Diagnostic → List IssueData)
    → String
    → Reply (List Diagnostic)
    → Reply (List IssueData × List Diagnostic)
derive_issues grouping path (err e) = err (wrapped "run analyzer" e)
derive_issues grouping path (ok found) =
    let diags = keep (λ (d : Diagnostic). not d.fixed) found in checked (grouping path diags) diags
