-- ===== src/Reconcilers/Issues/Labels.antt =====
-- The labels of an issue: hasSkipLabel, generateLabels, mergeLabels, labelSetsEqual and needsUpdate
-- of issuemanager/session.go.
pub mod Settled
use go_driftlessaf.Base.{
  Bool, true, false, not, ◌&&◌, ◌||◌, Option, none, some, List, [], ◌∷◌, ◌++◌, if◌then◌else◌,
  length, ltb, ◌==◌, Bytes, same, keep,
}
use go_driftlessaf.Reconcilers.Issues.{Im, Issue, ExistingIssue, colon, max_github_label_length}

-- slices.Contains, and membership in a set of texts.
unfoldable pub contains : List Bytes → Bytes → Bool
contains [] t = false
contains (s ∷ ss) t = same s t || contains ss t

-- strings.HasPrefix
unfoldable pub has_prefix : Bytes → Bytes → Bool
has_prefix [] t = true
has_prefix (a ∷ s) [] = false
has_prefix (a ∷ s) (b ∷ t) = let rest = has_prefix s t in if a == b then rest else false

-- The bytes of "skip:".
abbrev pub skip_prefix : Bytes
skip_prefix = 115 ∷ 107 ∷ 105 ∷ 112 ∷ colon ∷ []

-- hasSkipLabel
unfoldable pub has_skip_label : {T : Type 0} → Im T → Issue → Bool
has_skip_label im issue = contains issue.labels (skip_prefix ++ im.identity)

add_label : Bytes → Option Bytes → List Bytes → List Bytes
add_label identity none rest = rest
add_label identity (some []) rest = rest
add_label identity (some (c ∷ label)) rest =
    let prefixed = identity ++ colon ∷ c ∷ label in
    if ltb max_github_label_length (length prefixed) then rest else prefixed ∷ rest

run_templates : {T : Type 0} → Bytes → List (T → Option Bytes) → T → List Bytes
run_templates identity [] d = []
run_templates identity (t ∷ ts) d = add_label identity (t d) (run_templates identity ts d)

-- generateLabels
unfoldable pub generate_labels : {T : Type 0} → Im T → T → List Bytes
unfolding run_templates add_label
generate_labels im d = run_templates im.identity im.label_templates d

-- Whether mergeLabels keeps a label that the issue has.
unfoldable pub is_user_label : {T : Type 0} → Im T → Bytes → List Bytes → Bytes → Bool
is_user_label im path_label extra name =
    not
      (has_prefix (im.identity ++ colon ∷ []) name || (contains extra name || same name path_label))
    && not (contains im.managed_labels (im.to_lower name))

-- mergeLabels
unfoldable pub merge_labels :
    {T : Type 0} → Im T → List Bytes → Bytes → List Bytes → List Bytes → List Bytes
merge_labels im current path_label reconciled extra =
    path_label ∷ keep (is_user_label im path_label extra) current ++ (extra ++ reconciled)

-- The set of the labels in lower case.
unfoldable pub label_set : (Bytes → Bytes) → List Bytes → List Bytes
label_set lower [] = []
label_set lower (l ∷ ls) =
    let rest = label_set lower ls in if contains rest (lower l) then rest else lower l ∷ rest

includes : List Bytes → List Bytes → Bool
includes [] t = true
includes (l ∷ ls) t = contains t l && includes ls t

-- labelSetsEqual
unfoldable pub label_sets_equal : (Bytes → Bytes) → List Bytes → List Bytes → Bool
unfolding includes
label_sets_equal lower current desired =
    let a = label_set lower current in
    let b = label_set lower desired in (length a == length b) && includes a b

-- needsUpdate
unfoldable pub needs_update : {T : Type 0} → Im T → Bytes → ExistingIssue T → T → List Bytes → Bool
needs_update im path_label e expected extra =
    let merged = merge_labels im e.issue.labels path_label (generate_labels im expected) extra in
    if not (im.deep_equal e.data_of expected)
    then true
    else if not (label_sets_equal im.to_lower e.issue.labels merged)
    then true
    else false
