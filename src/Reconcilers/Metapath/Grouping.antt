-- ===== src/Reconcilers/Metapath/Grouping.antt =====
-- The map that GroupByRule of metapathreconciler/grouping.go builds: each finding once, by its rule.
pub mod Partition
use mathlib.Core.List.{Perm, append_assoc, append-nil, perm_middle}
use mathlib.Core.List.Perm
use mathlib.Core.HLevel.{×_prop, ×₃_prop}
use mathlib.Core.Bool.{Bool-set}
use go_driftlessaf.Base.{
  ◌≡◌, refl, String, true, false, none, List, [], ◌∷◌, ◌++◌, map, sort-perm, sort-Ordered, Ordered,
  lookup, insert, str_eq, compare_text, compare_text-IsComparison, compare_int-IsComparison,
  or_else-IsComparison, IsComparison, comparison_asym, comparison_below, All, All-append,
  Bool-cases, inl, inr, UniqueKeys, insert-UniqueKeys, eq_iff, eq_refl, arith, compare_int, length,
  length-sort, ltb, ℤ, on-IsComparison, All-perm, All-prop, Ordered-prop, Pairs, Pairs-perm,
  length-append, flat_map, flat_map-perm, flat_map-perm_each, flat_map-map,
}
use go_driftlessaf.Reconcilers.Metapath.{
  Diagnostic, compare_diagnostics, diagnostic_before, sort_diagnostics, IssueData, ByRule,
  add_diagnostic, by_rule, rule_issue, issue_before, group_by_rule,
}

-- The findings of a group.
abbrev members : String × List Diagnostic → List Diagnostic
members group = group.1

abbrev IsGroup : String × List Diagnostic → Type 0
IsGroup group =
    All (λ (d : Diagnostic). str_eq d.rule group.0 ≡ true) group.1 × (ltb 0 (length group.1) ≡ true)

add_here :
    (d : Diagnostic) (j : String) (ds : List Diagnostic) (m : ByRule)
    → str_eq j d.rule ≡ true
    → add_diagnostic d ((j, ds) ∷ m) ≡ (d.rule, ds ++ d ∷ []) ∷ m
unfolding add_diagnostic insert lookup
add_here d j ds m e = ground arith

add_there :
    (d : Diagnostic) (j : String) (ds : List Diagnostic) (m : ByRule)
    → str_eq j d.rule ≡ false
    → add_diagnostic d ((j, ds) ∷ m) ≡ (j, ds) ∷ add_diagnostic d m
unfolding add_diagnostic insert lookup
add_there d j ds m e = ground arith

add_diagnostic-perm :
    (d : Diagnostic) (m : ByRule)
    → Perm (flat_map members (add_diagnostic d m)) (d ∷ flat_map members m)
unfolding add_diagnostic insert lookup
add_diagnostic-perm d [] = Perm.refl (d ∷ [])
add_diagnostic-perm d ((j, ds) ∷ m) = elim (Bool-cases (str_eq j d.rule)) [
  | inl here ↦
      rw (add_here d j ds m here, append_assoc ds (d ∷ []) (flat_map members m))
        (perm_middle ds (flat_map members m))
  | inr there ↦ rw (add_there d j ds m there) (
      Perm.trans (Perm.append (Perm.refl ds) (add_diagnostic-perm d m))
        (perm_middle ds (flat_map members m)))
]

add_diagnostic-IsGroup :
    (d : Diagnostic) (m : ByRule) → All IsGroup m → All IsGroup (add_diagnostic d m)
unfolding add_diagnostic insert lookup
add_diagnostic-IsGroup d [] h = (((eq_refl d.rule, tt), refl), tt)
add_diagnostic-IsGroup d ((j, ds) ∷ m) h = elim (Bool-cases (str_eq j d.rule)) [
  | inl here ↦ rw (add_here d j ds m here) (
    (
      All-append _ ds (d ∷ []) (rw (← (eq_iff j d.rule).0 here) h.0.0) (eq_refl d.rule, tt),
      ground (arith, length-append ds (d ∷ [])),
    ),
    h.1,
  )
  | inr there ↦ rw (add_there d j ds m there) (h.0, add_diagnostic-IsGroup d m h.1)
]

by_rule-perm :
    (m : ByRule) (ds : List Diagnostic)
    → Perm (flat_map members (by_rule m ds)) (flat_map members m ++ ds)
unfolding by_rule
by_rule-perm m [] = rw append-nil (Perm.refl (flat_map members m))
by_rule-perm m (d ∷ ds) = Perm.trans (by_rule-perm (add_diagnostic d m) ds) (
    Perm.trans (Perm.append (add_diagnostic-perm d m) (Perm.refl ds))
      (Perm.symm (perm_middle (flat_map members m) ds)))

by_rule-IsGroup : (m : ByRule) (ds : List Diagnostic) → All IsGroup m → All IsGroup (by_rule m ds)
unfolding by_rule
by_rule-IsGroup m [] h = h
by_rule-IsGroup m (d ∷ ds) h =
    by_rule-IsGroup (add_diagnostic d m) ds (add_diagnostic-IsGroup d m h)

by_rule-UniqueKeys : (m : ByRule) (ds : List Diagnostic) → UniqueKeys m → UniqueKeys (by_rule m ds)
unfolding by_rule add_diagnostic
by_rule-UniqueKeys m [] h = h
by_rule-UniqueKeys m (d ∷ ds) h =
    by_rule-UniqueKeys (add_diagnostic d m) ds (insert-UniqueKeys d.rule _ m h)
