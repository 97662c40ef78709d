-- ===== src/Reconcilers/Metapath/Diff/Changed.antt =====
-- The ranges of metapathreconciler/diff.go against the added lines themselves.
use go_driftlessaf.Base.{
  ◌≡◌, refl, String, Bool, true, false, ◌&&◌, ◌||◌, not, Option, none, some, List, [], ◌∷◌, ◌++◌,
  if◌then◌else◌, ℤ, pos, eqb_ℤ, leb_ℤ, ◌+ℤ◌, ◌≤ℤ◌, lookup, get_or, str_eq, arith, Bool-cases, inl,
  inr, lookup-insert, is_some, keep, eq_iff, eq_refl,
}
use go_driftlessaf.Reconcilers.Metapath.{Diagnostic}
use go_driftlessaf.Reconcilers.Metapath.Diff.{
  DiffLine, DiffFile, LineRange, Ranges, close_range, one_line, add_lines, has_added, add_hunk,
  add_hunks, is_gone, parse_diff, in_ranges, is_kept_in, is_kept, filter_to_changed_lines,
}

-- Whether a line of a hunk was added, and whether one of the files of a name has it.
unfoldable pub is_added : ℤ → List DiffLine → Bool
is_added n [] = false
is_added n (l ∷ ls) = (l.added && eqb_ℤ l.number n) || is_added n ls

in_hunks : (List DiffLine → Bool) → List (List DiffLine) → Bool
in_hunks p [] = false
in_hunks p (h ∷ hs) = p h || in_hunks p hs

unfoldable pub in_diff : (List DiffLine → Bool) → String → List DiffFile → Bool
unfolding in_hunks
in_diff p path [] = false
in_diff p path (f ∷ fs) =
    (not (is_gone f.new_name) && (str_eq f.new_name path && in_hunks p f.hunks))
    || in_diff p path fs

-- A finding on an added line, or on a whole file in which lines were added.
abbrev pub is_changed : List DiffFile → Diagnostic → Bool
is_changed files d =
    if eqb_ℤ d.line (pos 0)
    then in_diff has_added d.path files
    else in_diff (is_added d.line) d.path files

in_ranges-append :
    (n : ℤ) (rs ss : List LineRange) → in_ranges n (rs ++ ss) ≡ in_ranges n rs || in_ranges n ss
unfolding in_ranges
in_ranges-append n [] ss = refl
in_ranges-append n (r ∷ rs) ss = ground (arith, in_ranges-append n rs ss)

-- A range that is open is not empty.
IsOpen : Option LineRange → Type 0
IsOpen none = Unit
IsOpen (some r) = r.start ≤ℤ r.last

in_ranges-close :
    (n : ℤ) (rs : List LineRange) (r : LineRange)
    → in_ranges n (rs ++ r ∷ []) ≡ in_ranges n rs || (leb_ℤ r.start n && leb_ℤ n r.last)
unfolding in_ranges
in_ranges-close n rs r = ground (arith, in_ranges-append n rs (r ∷ []))

-- A range that grows by the line behind it.
grown :
    (n : ℤ) (r : LineRange) (next : ℤ)
    → r.start ≤ℤ r.last
    → eqb_ℤ next (r.last +ℤ pos 1) ≡ true
    → (leb_ℤ r.start n && leb_ℤ n next) ≡ (leb_ℤ r.start n && leb_ℤ n r.last) || eqb_ℤ next n
unfolding ◌+ℤ◌
grown n r next h e = ground arith

grown_open :
    (r : LineRange) (next : ℤ)
    → r.start ≤ℤ r.last
    → eqb_ℤ next (r.last +ℤ pos 1) ≡ true
    → r.start ≤ℤ next
unfolding ◌+ℤ◌
grown_open r next h e = ground arith

add_lines-covers :
    (n : ℤ) (rs : List LineRange) (cur : Option LineRange) (ls : List DiffLine)
    → IsOpen cur
    → in_ranges n (add_lines rs cur ls) ≡ in_ranges n (close_range rs cur) || is_added n ls
unfolding add_lines is_added IsOpen
add_lines-covers n rs none [] h = ground arith
add_lines-covers n rs (some r) [] h = ground arith
add_lines-covers n rs none (l ∷ ls) h = ground (
  arith,
  add_lines-covers n rs none ls tt,
  add_lines-covers n rs (some (one_line l.number)) ls (omega arith),
  in_ranges-close n rs (one_line l.number),
)
add_lines-covers n rs (some r) (l ∷ ls) h = elim (Bool-cases l.added) [
  | inr context ↦ rw context (add_lines-covers n (rs ++ r ∷ []) none ls tt)
  | inl new ↦ elim (Bool-cases (eqb_ℤ l.number (r.last +ℤ pos 1))) [
    | inl next ↦
        rw (new, next)
          (ground (
            arith,
            add_lines-covers n rs (some (record r { last = l.number })) ls
                (grown_open r l.number h next),
            in_ranges-close n rs r,
            in_ranges-close n rs (record r { last = l.number }),
            grown n r l.number h next,
          ))
    | inr apart ↦
        rw (new, apart)
          (ground (
            arith,
            add_lines-covers n (rs ++ r ∷ []) (some (one_line l.number)) ls (omega arith),
            in_ranges-close n (rs ++ r ∷ []) (one_line l.number),
          ))
  ]
]

-- The ranges of a file in the map, if it has none there, too.
abbrev ranges_of : String → Ranges → List LineRange
ranges_of path m = get_or (lookup path m) []

not_added : (n : ℤ) (ls : List DiffLine) → has_added ls ≡ false → is_added n ls ≡ false
unfolding has_added is_added
not_added n [] h = refl
not_added n (l ∷ ls) h = ground (arith, not_added n ls)

add_hunk-covers :
    (n : ℤ) (path name : String) (ls : List DiffLine) (m : Ranges)
    → in_ranges n (ranges_of path (add_hunk name ls m))
      ≡ in_ranges n (ranges_of path m) || (str_eq name path && is_added n ls)
unfolding add_hunk IsOpen
add_hunk-covers n path name ls m = elim (Bool-cases (has_added ls)) [
  | inl some_added ↦ rw some_added (elim (Bool-cases (str_eq name path)) [
    | inl here ↦
        rw (here, ← (eq_iff name path).0 here)
          (ground (
            arith,
            lookup-insert name name (add_lines (ranges_of name m) none ls) m,
            eq_refl name,
            add_lines-covers n (ranges_of name m) none ls tt,
          ))
    | inr there ↦ ground (arith, lookup-insert name path (add_lines (ranges_of name m) none ls) m)
  ])
  | inr none_added ↦ rw (none_added, not_added n ls none_added) (ground arith)
]

add_hunk-present :
    (path name : String) (ls : List DiffLine) (m : Ranges)
    → is_some (lookup path (add_hunk name ls m))
      ≡ is_some (lookup path m) || (str_eq name path && has_added ls)
unfolding add_hunk
add_hunk-present path name ls m =
    ground (arith, lookup-insert name path (add_lines (ranges_of name m) none ls) m)

-- What a test on the ranges of a path says after hunks, if it says it after one.
module _ (test : Ranges → Bool) (p : List DiffLine → Bool) (path : String)
    (one : (name : String) (ls : List DiffLine) (m : Ranges)
      → test (add_hunk name ls m) ≡ test m || (str_eq name path && p ls)) where
  after_hunks :
      (name : String) (hs : List (List DiffLine)) (m : Ranges)
      → test (add_hunks name hs m) ≡ test m || (str_eq name path && in_hunks p hs)
  unfolding add_hunks in_hunks
  after_hunks name [] m = ground arith
  after_hunks name (h ∷ hs) m =
      ground (arith, after_hunks name hs (add_hunk name h m), one name h m)

  after_files :
      (fs : List DiffFile) (m : Ranges) → test (parse_diff fs m) ≡ test m || in_diff p path fs
  unfolding parse_diff in_diff
  after_files [] m = ground arith
  after_files (f ∷ fs) m = elim (Bool-cases (is_gone f.new_name)) [
    | inl gone ↦ rw (gone, after_files fs m)
    | inr there ↦ rw there (
        ground (
          arith,
          after_files fs (add_hunks f.new_name f.hunks m),
          after_hunks f.new_name f.hunks m,
        ))
  ]

is_kept-is_changed :
    (files : List DiffFile) (d : Diagnostic) → is_kept (parse_diff files []) d ≡ is_changed files d
unfolding is_kept lookup in_ranges
is_kept-is_changed files d =
    by_entry (lookup d.path (parse_diff files []))
      (after_files (λ m. is_some (lookup d.path m)) has_added d.path
        (λ name ls m. add_hunk-present d.path name ls m) files [])
      (after_files (λ m. in_ranges d.line (ranges_of d.path m)) (is_added d.line) d.path
        (λ name ls m. add_hunk-covers d.line d.path name ls m) files [])
  where
    by_entry :
        (o : Option (List LineRange))
        → is_some o ≡ in_diff has_added d.path files
        → in_ranges d.line (get_or o []) ≡ in_diff (is_added d.line) d.path files
        → is_kept_in d o ≡ is_changed files d
    by_entry none h k = ground (arith, h, k)
    by_entry (some rs) h k = ground (arith, h, k)

-- The filter of a review keeps exactly the findings on lines that the pull request added, and those on
-- a whole file (line 0) in which it added a line: the ranges that parseDiff merges the lines into,
-- over any hunks and files, cover those lines and no others.
pub filter_to_changed_lines-keep :
    (files : List DiffFile) (ds : List Diagnostic)
    → filter_to_changed_lines (parse_diff files []) ds ≡ keep (is_changed files) ds
unfolding filter_to_changed_lines
filter_to_changed_lines-keep files [] = refl
filter_to_changed_lines-keep files (d ∷ ds) =
    rw (is_kept-is_changed files d, filter_to_changed_lines-keep files ds)
