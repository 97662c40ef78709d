-- ===== src/Reconcilers/Metapath/Derive.antt =====
-- deriveIssues of metapathreconciler/grouping.go: the check for a key that appears twice.
use mathlib.Core.List.{Perm}
use go_driftlessaf.Base.{
  ◌≡◌, refl, String, false, not, List, [], ◌∷◌, keep, All, All-map, is_some, lookup, insert,
  lookup-insert, Bool-cases, inl, inr, arith, Pairs,
}
use go_driftlessaf.Workqueue.Interface.{Reply, ok, err}
use go_driftlessaf.Reconcilers.Issues.{Im}
use go_driftlessaf.Reconcilers.Issues.Session.{matches_any, has_duplicates}
use go_driftlessaf.Reconcilers.Metapath.{
  Diagnostic, IssueData, ByRule, issue_equal, group_by_rule, repeats_key, derive_issues,
}
use go_driftlessaf.Reconcilers.Metapath.Grouping.Partition.{HasOwnKey, group_by_rule_partitions}

abbrev Seen : Type 0
Seen = List (String × Unit {0})

abbrev IsNew : Seen → IssueData → Type 0
IsNew seen d = is_some (lookup d.key seen) ≡ false

still-IsNew :
    (seen : Seen) (d x : IssueData) → HasOwnKey d x → IsNew seen x → IsNew (insert d.key tt seen) x
still-IsNew seen d x own new = ground (arith, lookup-insert d.key x.key tt seen)

IsNew-before :
    (seen : Seen) (d x : IssueData) → IsNew (insert d.key tt seen) x → HasOwnKey d x × IsNew seen x
IsNew-before seen d x new = (
  ground (arith, lookup-insert d.key x.key tt seen),
  ground (arith, lookup-insert d.key x.key tt seen),
)

All-zip :
    {A : Type 0} {P Q R : A → Type 0} (f : (x : A) → P x → Q x → R x) (xs : List A)
    → All P xs
    → All Q xs
    → All R xs
All-zip f [] h k = tt
All-zip f (x ∷ xs) h k = (f x h.0 k.0, All-zip f xs h.1 k.1)

no_repeat :
    (seen : Seen) (ds : List IssueData)
    → All (IsNew seen) ds
    → Pairs HasOwnKey ds
    → repeats_key seen ds ≡ false
unfolding repeats_key
no_repeat seen [] new own = refl
no_repeat seen (d ∷ ds) new own =
    rw new.0 (
      no_repeat (insert d.key tt seen) ds (All-zip (λ x. still-IsNew seen d x) ds own.0 new.1)
        own.1)

no_repeat-Pairs :
    (seen : Seen) (ds : List IssueData)
    → repeats_key seen ds ≡ false
    → All (IsNew seen) ds × Pairs HasOwnKey ds
unfolding repeats_key
no_repeat-Pairs seen [] h = (tt, tt)
no_repeat-Pairs seen (d ∷ ds) h = elim (Bool-cases (is_some (lookup d.key seen))) [
  | inl twice ↦ absurd (ground arith)
  | inr new ↦
      let (rest, own) = no_repeat-Pairs (insert d.key tt seen) ds (ground arith) in
      (
        (new, All-map (λ x n. (IsNew-before seen d x n).1) ds rest),
        (All-map (λ x n. (IsNew-before seen d x n).0) ds rest, own),
      )
]

-- What deriveIssues returns has no key twice.
pub derive_issues-Pairs :
    (grouping : String → List Diagnostic → List IssueData) (path : String)
    (r : Reply (List Diagnostic)) (desired : List IssueData) (diags : List Diagnostic)
    → derive_issues grouping path r ≡ ok (desired, diags)
    → Pairs HasOwnKey desired
unfolding derive_issues
derive_issues-Pairs grouping path (err e) desired diags h = cc
derive_issues-Pairs grouping path (ok found) desired diags h =
    let open_diags = keep (λ (d : Diagnostic). not d.fixed) found in
    elim (Bool-cases (repeats_key [] (grouping path open_diags))) [
      | inl twice ↦ absurd (ground arith)
      | inr once ↦
          let e : grouping path open_diags ≡ desired = ground arith in
          rw (← e) (no_repeat-Pairs [] (grouping path open_diags) once).1
    ]

-- An issue manager that matches issues by their key finds no duplicates then.
pub Pairs-has_duplicates :
    (im : Im IssueData) (ds : List IssueData)
    → ((a b : IssueData) → im.equal a b ≡ issue_equal a b)
    → Pairs HasOwnKey ds
    → has_duplicates im ds ≡ false
unfolding has_duplicates matches_any
Pairs-has_duplicates im [] by_key own = refl
Pairs-has_duplicates im (d ∷ ds) by_key own =
    rw (alone ds own.0) (Pairs-has_duplicates im ds by_key own.1)
  where
    alone : (xs : List IssueData) → All (HasOwnKey d) xs → matches_any im d xs ≡ false
    alone [] h = refl
    alone (x ∷ xs) h = rw (by_key d x, h.0) (alone xs h.1)

All-IsNew : (ds : List IssueData) → All (IsNew []) ds
unfolding lookup
All-IsNew [] = tt
All-IsNew (d ∷ ds) = (refl, All-IsNew ds)

-- The default grouping never fails the check for duplicate keys: if the analyzer succeeds, so does
-- deriveIssues, with the findings that are not marked as fixed, grouped by their rule.
pub derive_issues_by_rule :
    (order : ByRule → ByRule) (path : String) (found : List Diagnostic)
    → ((m : ByRule) → Perm (order m) m)
    → let diags = keep (λ (d : Diagnostic). not d.fixed) found in
      derive_issues (group_by_rule order) path (ok found)
      ≡ ok (group_by_rule order path diags, diags)
unfolding derive_issues
derive_issues_by_rule order path found walk =
    let diags = keep (λ (d : Diagnostic). not d.fixed) found in
    let issues = group_by_rule order path diags in
    let (each, filed, sorted, own) = group_by_rule_partitions order path diags walk in
    rw (no_repeat [] issues (All-IsNew issues) own)
