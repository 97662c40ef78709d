-- ===== src/Reconcilers/Metapath/Diff.antt =====
-- parseDiff and filterToChangedLines of metapathreconciler/diff.go: the findings on lines that a pull
-- request changed. The parser of unified diffs is a library: its result is an argument.
pub mod Changed
use go_driftlessaf.Base.{
  String, Bool, true, false, ◌&&◌, ◌||◌, not, Option, none, some, List, [], ◌∷◌, ◌++◌,
  if◌then◌else◌, ℤ, pos, eqb_ℤ, leb_ℤ, ◌+ℤ◌, lookup, insert, get_or, str_eq,
}
use go_driftlessaf.Reconcilers.Metapath.{Diagnostic}

-- What the package uses of the parsed diff: the files, each with the lines of its hunks on the new
-- side.
pub record DiffLine : Type 0 where
  pub added : Bool
  pub number : ℤ

pub record DiffFile : Type 0 where
  pub new_name : String
  pub hunks : List (List DiffLine)

-- changedLineRange
pub record LineRange : Type 0 where
  pub start : ℤ
  pub last : ℤ

abbrev pub Ranges : Type 0
Ranges = List (String × List LineRange)

-- The ranges with the open one, if any, at the end.
abbrev pub close_range : List LineRange → Option LineRange → List LineRange
close_range rs none = rs
close_range rs (some r) = rs ++ r ∷ []

abbrev pub one_line : ℤ → LineRange
one_line n = record { start = n; last = n }

-- The loop over the lines of a hunk; `cur`, the range that may still grow, is kept apart from those
-- before it.
unfoldable pub add_lines : List LineRange → Option LineRange → List DiffLine → List LineRange
add_lines rs cur [] = close_range rs cur
add_lines rs none (l ∷ ls) =
    let skip = add_lines rs none ls in
    let fresh = add_lines rs (some (one_line l.number)) ls in if not l.added then skip else fresh
add_lines rs (some r) (l ∷ ls) =
    let skip = add_lines (close_range rs (some r)) none ls in
    let grow = add_lines rs (some (record r { last = l.number })) ls in
    let fresh = add_lines (close_range rs (some r)) (some (one_line l.number)) ls in
    if not l.added then skip else if eqb_ℤ l.number (r.last +ℤ pos 1) then grow else fresh

unfoldable pub has_added : List DiffLine → Bool
has_added [] = false
has_added (l ∷ ls) = l.added || has_added ls

-- A file gets an entry in the map with its first range.
unfoldable pub add_hunk : String → List DiffLine → Ranges → Ranges
add_hunk name ls m =
    if has_added ls then insert name (add_lines (get_or (lookup name m) []) none ls) m else m

unfoldable pub add_hunks : String → List (List DiffLine) → Ranges → Ranges
add_hunks name [] m = m
add_hunks name (h ∷ hs) m = add_hunks name hs (add_hunk name h m)

-- Whether parseDiff skips a file, as deleted.
abbrev pub is_gone : String → Bool
is_gone name = str_eq name "/dev/null" || str_eq name ""

-- The ranges that parseDiff collects.
unfoldable pub parse_diff : List DiffFile → Ranges → Ranges
parse_diff [] m = m
parse_diff (f ∷ fs) m =
    parse_diff fs (if is_gone f.new_name then m else add_hunks f.new_name f.hunks m)

unfoldable pub in_ranges : ℤ → List LineRange → Bool
in_ranges n [] = false
in_ranges n (r ∷ rs) = (leb_ℤ r.start n && leb_ℤ n r.last) || in_ranges n rs

is_kept_in : Diagnostic → Option (List LineRange) → Bool
is_kept_in d none = false
is_kept_in d (some rs) = if eqb_ℤ d.line (pos 0) then true else in_ranges d.line rs

-- Whether filterToChangedLines keeps a finding.
unfoldable pub is_kept : Ranges → Diagnostic → Bool
unfolding is_kept_in
is_kept m d = is_kept_in d (lookup d.path m)

-- filterToChangedLines
unfoldable pub filter_to_changed_lines : Ranges → List Diagnostic → List Diagnostic
filter_to_changed_lines m [] = []
filter_to_changed_lines m (d ∷ ds) =
    let rest = filter_to_changed_lines m ds in if is_kept m d then d ∷ rest else rest
