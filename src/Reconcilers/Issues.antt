-- ===== src/Reconcilers/Issues.antt =====
-- reconcilers/githubreconciler/issuemanager: the issues of one path as they are found (manager.go).
-- A label is its bytes. The templates, the data embedded in a body, SHA-256 and strings.ToLower are
-- arguments.
pub mod Labels
pub mod Session
pub mod Reconcile
pub mod Open
use go_driftlessaf.Base.{
  ℕ, ◌-◌, String, Bool, true, false, not, Option, none, some, List, [], ◌∷◌, ◌++◌, map,
  if◌then◌else◌, length, take, leb, ltb, ◌==◌, ℤ, pos, leb_ℤ, ltb_ℤ, max_ℤ, Bytes, negsuc, suc,
  two64, to_int64, ◌*◌, same,
}
use go_driftlessaf.Clock.{scale}
use go_driftlessaf.Workqueue.Errors.{Err, other, wrapped}
use go_driftlessaf.Workqueue.Interface.{Reply, ok, err}

-- What the package uses of github.Issue.
pub record Issue : Type 0 where
  pub number : ℕ
  pub html_url : String
  pub labels : List Bytes
  pub body : String
  pub is_pull_request : Bool

-- IM: the fields that hold templates are the functions that execute them; a label template that
-- fails gives none. The managed labels are in lower case, as WithManagedLabels puts them. Equal is the method of Comparable, and deep_equal is reflect.DeepEqual.
pub record Im (T : Type 0) : Type 0 where
  pub identity : Bytes
  pub title_template : T → Reply String
  pub body_template : T → Reply String
  pub embed : String → T → Reply String
  pub extract : String → Reply T
  pub label_templates : List (T → Option Bytes)
  pub managed_labels : List Bytes
  pub max_desired_issues : ℤ
  pub equal : T → T → Bool
  pub deep_equal : T → T → Bool
  pub to_lower : Bytes → Bytes
  pub sha256_hex : Bytes → Bytes

abbrev pub max_github_label_length : ℕ
max_github_label_length = 50

abbrev pub max_identity_length : ℕ
max_identity_length = 20

abbrev pub default_max_existing_issues : ℤ
default_max_existing_issues = pos 100

-- The byte of a colon.
abbrev pub colon : ℕ
colon = 58

-- New, for templates that are there: an identity that is too long is an error.
unfoldable pub new_im : {T : Type 0} → Im T → Reply (Im T)
new_im im =
    if ltb max_identity_length (length im.identity)
    then err (wrapped "identity must be 20 characters or less" (other 0))
    else ok im

-- constructPathLabel; `hash` is the SHA-256 of a text in hexadecimal.
unfoldable pub construct_path_label : (Bytes → Bytes) → Bytes → Bytes → Bytes
construct_path_label hash identity path =
    let label = identity ++ colon ∷ path in
    let hash_len = max_github_label_length - length identity - 1 in
    if leb (length label) max_github_label_length
    then label
    else identity ++ colon ∷ take hash_len (hash path)

-- WithSessionMaxDesiredIssues for each of the limits, over the manager's.
unfoldable pub session_max : ℤ → List ℤ → ℤ
session_max limit [] = limit
session_max limit (n ∷ ns) = session_max (if ltb_ℤ (pos 0) n then n else limit) ns

-- The responses of the listing, page after page, until one names no next page.
pub data Pages : Type 0 where
  last_page : Reply (List Issue) → Pages
  page : Reply (List Issue) → Pages → Pages

abbrev too_many : Err
too_many = wrapped "exceeding safety limit" (other 0)

abbrev listing_error : Err → Err
listing_error e = wrapped "listing issues" e

abbrev last_issues : ℤ → List Issue → Reply (List Issue)
last_issues max_existing all =
    if leb_ℤ max_existing (pos (length all)) then err too_many else ok all

-- The listing loop of NewSession, behind the issues that it has.
unfoldable pub list_issues : ℤ → List Issue → Pages → Reply (List Issue)
list_issues max_existing seen (last_page (err e)) = err (listing_error e)
list_issues max_existing seen (last_page (ok issues)) = last_issues max_existing (seen ++ issues)
list_issues max_existing seen (page (err e) rest) = err (listing_error e)
list_issues max_existing seen (page (ok issues) rest) =
    let more = list_issues max_existing (seen ++ issues) rest in
    if leb_ℤ max_existing (pos (length (seen ++ issues))) then err too_many else more

-- existingIssue
pub record ExistingIssue (T : Type 0) : Type 0 where
  pub issue : Issue
  pub data_of : T

abbrev with_data : {T : Type 0} → Issue → Reply T → List (ExistingIssue T) → List (ExistingIssue T)
with_data i (err e) rest = rest
with_data i (ok d) rest = record { issue = i; data_of = d } ∷ rest

-- The issues whose data can be read, without the pull requests.
unfoldable pub decode_issues : {T : Type 0} → Im T → List Issue → List (ExistingIssue T)
decode_issues im [] = []
decode_issues im (i ∷ rest) =
    let others = decode_issues im rest in
    if not i.is_pull_request then with_data i (im.extract i.body) others else others

-- IssueSession
pub record IssueSession (T : Type 0) : Type 0 where
  pub manager : Im T
  pub path_label : Bytes
  pub existing_issues : List (ExistingIssue T)
  pub max_desired : ℤ

abbrev open_session : {T : Type 0} → Im T → Bytes → ℤ → Reply (List Issue) → Reply (IssueSession T)
open_session im label limit (err e) = err e
open_session im label limit (ok all) = ok (record {
  manager = im;
  path_label = label;
  existing_issues = decode_issues im all;
  max_desired = limit;
})

-- Twice an int, as Go multiplies.
unfoldable pub double : ℤ → ℤ
double (pos n) = to_int64 (2 * n)
double (negsuc n) = to_int64 (2 * (two64 - suc n))

-- NewSession for a path: `pages` are GitHub's answers to the listing of the issues with the label.
unfoldable pub new_session : {T : Type 0} → Im T → Bytes → List ℤ → Pages → Reply (IssueSession T)
unfolding double
new_session im path limits pages =
    let limit = session_max im.max_desired_issues limits in
    let max_existing = max_ℤ (double limit) default_max_existing_issues in
    open_session im (construct_path_label im.sha256_hex im.identity path) limit
      (list_issues max_existing [] pages)

-- Existing
unfoldable pub existing : {T : Type 0} → IssueSession T → List T
existing s = map (λ (e : ExistingIssue _). e.data_of) s.existing_issues
