-- ===== src/Reconcilers/Metapath/Grouping/Partition.antt =====
-- GroupByRule of metapathreconciler/grouping.go: the issues hold the findings, each once.
use mathlib.Core.List.{Perm}
use mathlib.Core.List.Perm
use mathlib.Core.HLevel.{×_prop, ×₃_prop}
use mathlib.Core.Bool.{Bool-set}
use go_driftlessaf.Base.{
  ◌≡◌, String, true, false, none, List, [], ◌∷◌, map, sort-perm, sort-Ordered, Ordered, lookup,
  str_eq, compare_text, compare_text-IsComparison, compare_int-IsComparison, or_else-IsComparison,
  IsComparison, comparison_asym, comparison_below, All, Bool-cases, inl, inr, UniqueKeys, eq_iff,
  arith, compare_int, length, length-sort, ltb, ℤ, on-IsComparison, All-perm, All-prop,
  Ordered-prop, Pairs, Pairs-perm, flat_map, flat_map-perm, flat_map-perm_each, flat_map-map,
}
use go_driftlessaf.Reconcilers.Metapath.{
  Diagnostic, compare_diagnostics, diagnostic_before, sort_diagnostics, IssueData, ByRule, by_rule,
  rule_issue, issue_before, group_by_rule,
}
use go_driftlessaf.Reconcilers.Metapath.Grouping.{
  members, IsGroup, by_rule-perm, by_rule-IsGroup, by_rule-UniqueKeys,
}

abbrev text_by : (Diagnostic → String) → Diagnostic → Diagnostic → ℤ
text_by f a b = compare_text (f a) (f b)

text_by-IsComparison : (f : Diagnostic → String) → IsComparison (text_by f)
text_by-IsComparison f = on-IsComparison f compare_text compare_text-IsComparison

compare_diagnostics-IsComparison : IsComparison compare_diagnostics
unfolding compare_diagnostics
compare_diagnostics-IsComparison =
    let line = on-IsComparison (λ (d : Diagnostic). d.line) compare_int compare_int-IsComparison in
    let texts =
      or_else-IsComparison (text_by (λ d. d.rule)) (text_by (λ d. d.message))
        (text_by-IsComparison (λ d. d.rule)) (text_by-IsComparison (λ d. d.message)) in
    or_else-IsComparison (text_by (λ d. d.path)) _ (text_by-IsComparison (λ d. d.path))
      (or_else-IsComparison _ _ line texts)

sort_diagnostics-Ordered : (ds : List Diagnostic) → Ordered diagnostic_before (sort_diagnostics ds)
unfolding sort_diagnostics
sort_diagnostics-Ordered ds =
    sort-Ordered diagnostic_before (comparison_asym compare_diagnostics-IsComparison)
      (comparison_below compare_diagnostics-IsComparison) ds

issue-IsComparison : IsComparison (λ (a b : IssueData). compare_text a.key b.key)
issue-IsComparison =
    on-IsComparison (λ (i : IssueData). i.key) compare_text compare_text-IsComparison

-- What an issue holds: findings of its rule only, at least one of them, in order.
abbrev pub IsFiled : IssueData → Type 0
IsFiled i =
    All (λ (d : Diagnostic). str_eq d.rule i.key ≡ true) i.diagnostics
    × (ltb 0 (length i.diagnostics) ≡ true)
    × Ordered diagnostic_before i.diagnostics

IsFiled-prop : (i : IssueData) → IsProp (IsFiled i)
IsFiled-prop i =
    ×₃_prop (All-prop _ (λ (d : Diagnostic). Bool-set (str_eq d.rule i.key) true) i.diagnostics)
      (Bool-set (ltb 0 (length i.diagnostics)) true) (Ordered-prop diagnostic_before i.diagnostics)

IsGroup-prop : (g : String × List Diagnostic) → IsProp (IsGroup g)
IsGroup-prop g =
    ×_prop (All-prop _ (λ (d : Diagnostic). Bool-set (str_eq d.rule g.0) true) g.1)
      (Bool-set (ltb 0 (length g.1)) true)

rule_issue-IsFiled :
    (path : String) (g : String × List Diagnostic) → IsGroup g → IsFiled (rule_issue path g)
unfolding rule_issue sort_diagnostics
rule_issue-IsFiled path g h = (
  All-perm _ (λ (d : Diagnostic). Bool-set (str_eq d.rule g.0) true)
      (Perm.symm (sort-perm diagnostic_before g.1)) h.0,
  rw (length-sort diagnostic_before g.1) h.1,
  sort_diagnostics-Ordered g.1,
)

All-of_map :
    {A B : Type 0} (P : A → Type 0) (Q : B → Type 0) (f : A → B)
    → ((x : A) → P x → Q (f x))
    → (xs : List A) → All P xs
    → All Q (map f xs)
All-of_map P Q f h [] k = tt
All-of_map P Q f h (x ∷ xs) k = (h x k.0, All-of_map P Q f h xs k.1)

-- No two issues have the same key.
abbrev pub HasOwnKey : IssueData → IssueData → Type 0
HasOwnKey a b = str_eq a.key b.key ≡ false

abbrev OwnRule : String × List Diagnostic → String × List Diagnostic → Type 0
OwnRule a b = str_eq a.0 b.0 ≡ false

pub str_eq-flip : (s t : String) → str_eq s t ≡ false → str_eq t s ≡ false
str_eq-flip s t h = ground (arith, eq_iff s t, eq_iff t s)

unlisted : (k : String) (m : ByRule) → lookup k m ≡ none → All (λ g. str_eq k g.0 ≡ false) m
unfolding lookup
unlisted k [] h = tt
unlisted k ((j, ds) ∷ m) h = elim (Bool-cases (str_eq j k)) [
  | inl here ↦ absurd (ground arith)
  | inr there ↦ (str_eq-flip j k there, unlisted k m (ground arith))
]

UniqueKeys-Pairs : (m : ByRule) → UniqueKeys m → Pairs OwnRule m
UniqueKeys-Pairs [] u = tt
UniqueKeys-Pairs ((k, ds) ∷ m) u = (unlisted k m u.0, UniqueKeys-Pairs m u.1)

Pairs-of_map :
    (path : String) (m : ByRule) → Pairs OwnRule m → Pairs HasOwnKey (map (rule_issue path) m)
unfolding rule_issue
Pairs-of_map path [] h = tt
Pairs-of_map path (g ∷ m) h =
    (All-of_map _ _ (rule_issue path) (λ x e. e) m h.0, Pairs-of_map path m h.1)

rule_issue-perm :
    (path : String) (g : String × List Diagnostic)
    → Perm (rule_issue path g).diagnostics (members g)
unfolding rule_issue sort_diagnostics
rule_issue-perm path g = sort-perm diagnostic_before g.1

-- Whatever order Go takes for its walk over the map, GroupByRule files every finding in exactly one
-- issue, and nothing else: the issues' findings together are the findings; each issue has at least
-- one, all of them of the rule that is its key, sorted; and the issues are sorted by key, with no key
-- twice.
pub group_by_rule_partitions :
    (order : ByRule → ByRule) (path : String) (diags : List Diagnostic)
    → ((m : ByRule) → Perm (order m) m)
    → let issues = group_by_rule order path diags in
      Perm (flat_map (λ (i : IssueData). i.diagnostics) issues) diags
      × All IsFiled issues
      × Ordered issue_before issues
      × Pairs HasOwnKey issues
unfolding group_by_rule
group_by_rule_partitions order path diags walk =
    let m = by_rule [] diags in
    let unsorted = map (rule_issue path) (order m) in
    let sorted = sort-perm issue_before unsorted in
    (
      Perm.trans (flat_map-perm (λ (i : IssueData). i.diagnostics) sorted) (
          rw (flat_map-map (rule_issue path) (λ (i : IssueData). i.diagnostics) (order m)) (
            Perm.trans (flat_map-perm_each _ members (rule_issue-perm path) (order m))
              (Perm.trans (flat_map-perm members (walk m)) (by_rule-perm [] diags)))),
      All-perm IsFiled IsFiled-prop (Perm.symm sorted) (
          All-of_map IsGroup IsFiled (rule_issue path) (rule_issue-IsFiled path) (order m)
            (All-perm IsGroup IsGroup-prop (Perm.symm (walk m)) (by_rule-IsGroup [] diags tt))),
      sort-Ordered issue_before (comparison_asym issue-IsComparison)
          (comparison_below issue-IsComparison) unsorted,
      Pairs-perm HasOwnKey (λ a b. Bool-set _ _) (λ a b. str_eq-flip a.key b.key) (Perm.symm sorted)
          (Pairs-of_map path (order m) (
            Pairs-perm OwnRule (λ a b. Bool-set _ _) (λ a b. str_eq-flip a.0 b.0)
              (Perm.symm (walk m)) (UniqueKeys-Pairs m (by_rule-UniqueKeys [] diags tt)))),
    )
