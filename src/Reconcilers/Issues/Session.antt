-- ===== src/Reconcilers/Issues/Session.antt =====
-- The calls that an issue session of issuemanager/session.go makes on GitHub: findMatchingIssue,
-- createIssue, updateIssue, and Reconcile. Of two texts that wrap an error one inside the other, the
-- inner one is kept.
use go_driftlessaf.Base.{
  ℕ, String, Bool, false, Option, none, some, List, [], ◌∷◌, ◌++◌, ◌==◌, ◌||◌, if◌then◌else◌,
  length, pos, ltb_ℤ, Bytes, str_eq,
}
use go_driftlessaf.Workqueue.Errors.{other, wrapped}
use go_driftlessaf.Workqueue.Interface.{Reply, ok, err}
use go_driftlessaf.Reconcilers.Issues.{Im, Issue, ExistingIssue, IssueSession}
use go_driftlessaf.Reconcilers.Issues.Labels.{
  has_skip_label, generate_labels, merge_labels, needs_update,
}

-- Issues.Create and Issues.Edit with their title, body and labels, Issues.CreateComment, and
-- Issues.Edit to the state "closed".
pub data Call : Type 0 where
  create : String → String → List Bytes → Call
  edit : ℕ → String → String → List Bytes → Call
  comment : ℕ → String → Call
  close : ℕ → Call

-- The calls so far; GitHub answers the next one with the URL of its issue or an error, in any way
-- that depends on those before.
abbrev pub Log : Type 0
Log = List Call

abbrev pub Github : Type 0
Github = Log → Call → Reply String

infixl 5 ◌>>=◌
unfoldable pub ◌>>=◌ : {A B : Type 0} → Reply A × Log → (A → Log → Reply B × Log) → Reply B × Log
(err e, log) >>= f = (err e, log)
(ok a, log) >>= f = f a log

abbrev pub annotate : {A : Type 0} → String → Reply A × Log → Reply A × Log
annotate s (err e, log) = (err (wrapped s e), log)
annotate s (ok a, log) = (ok a, log)

unfoldable pub send : Github → String → Call → Log → Reply String × Log
send gh s c log = annotate s (gh log c, log ++ c ∷ [])

-- findMatchingIssue
unfoldable pub find_matching_issue :
    {T : Type 0} → Im T → List (ExistingIssue T) → T → Option (ExistingIssue T)
find_matching_issue im [] d = none
find_matching_issue im (e ∷ es) d =
    let rest = find_matching_issue im es d in if im.equal e.data_of d then some e else rest

abbrev titled : String → Reply String → Reply (String × String)
titled title (err e) = err (wrapped "embedding data" e)
titled title (ok body) = ok (title, body)

abbrev embedded : {T : Type 0} → Im T → T → String → Reply String → Reply (String × String)
embedded im d title (err e) = err (wrapped "executing body template" e)
embedded im d title (ok body) = titled title (im.embed body d)

abbrev with_title : {T : Type 0} → Im T → T → Reply String → Reply (String × String)
with_title im d (err e) = err (wrapped "executing title template" e)
with_title im d (ok title) = embedded im d title (im.body_template d)

-- prepareIssueRequest, the title and the body.
unfoldable pub prepare_issue_request : {T : Type 0} → Im T → T → Reply (String × String)
prepare_issue_request im d = with_title im d (im.title_template d)

-- matchedIssues, with the issue that matches.
abbrev pub mark : {T : Type 0} → Option (ExistingIssue T) → List ℕ → List ℕ
mark none matched = matched
mark (some e) matched = e.issue.number ∷ matched

module _ {T : Type 0} (s : IssueSession T) (extra : List Bytes) where
  -- The labels of a new issue.
  unfoldable pub new_labels : T → List Bytes
  new_labels d = s.path_label ∷ generate_labels s.manager d ++ extra

  -- The labels of an issue that is updated.
  unfoldable pub updated_labels : Issue → T → List Bytes
  updated_labels i d =
      merge_labels s.manager i.labels s.path_label (generate_labels s.manager d) extra

module _ {T : Type 0} (gh : Github) (s : IssueSession T) (extra : List Bytes) where
  -- createIssue
  unfoldable pub create_issue : T → Log → Reply String × Log
  create_issue d log = (prepare_issue_request s.manager d, log) >>= λ r.
      send gh "creating issue" (create r.0 r.1 (new_labels s extra d))

  -- updateIssue
  unfoldable pub update_issue : Issue → T → Log → Reply String × Log
  update_issue i d log = (prepare_issue_request s.manager d, log) >>= λ r.
      send gh "updating issue" (edit i.number r.0 r.1 (updated_labels s extra i d))

  keep_or_update : ExistingIssue T → T → Log → Reply String × Log
  keep_or_update e d log =
      let update = update_issue e.issue d log in
      if has_skip_label s.manager e.issue
      then (ok e.issue.html_url, log)
      else if needs_update s.manager s.path_label e d extra
      then update
      else (ok e.issue.html_url, log)

  -- The body of the first loop of Reconcile, for the issue that matches.
  unfoldable pub settle : Option (ExistingIssue T) → T → Log → Reply String × Log
  unfolding keep_or_update
  settle none d log = create_issue d log
  settle (some e) d log = keep_or_update e d log

  -- The first loop: the URLs in order, and the numbers of the issues that matched.
  unfoldable pub settle_all : List T → List ℕ → Log → Reply (List String × List ℕ) × Log
  settle_all [] matched log = (ok ([], matched), log)
  settle_all (d ∷ ds) matched log =
      let found = find_matching_issue s.manager s.existing_issues d in
      settle found d log >>= λ url log'.
      settle_all ds (mark found matched) log' >>= λ r log''. (ok (url ∷ r.0, r.1), log'')

abbrev pub is_matched : List ℕ → ℕ → Bool
is_matched [] n = false
is_matched (m ∷ ms) n = (m == n) || is_matched ms n

module _ {T : Type 0} (gh : Github) (im : Im T) (message : String) where
  -- An issue is closed, behind a comment if there is a message.
  unfoldable pub close_issue : Issue → Log → Reply String × Log
  close_issue i log =
      (if str_eq message ""
        then (ok "", log)
        else send gh "posting comment" (comment i.number message) log)
      >>= λ u. send gh "closing issue" (close i.number)

  -- The second loop of Reconcile.
  unfoldable pub close_unmatched : List (ExistingIssue T) → List ℕ → Log → Reply String × Log
  close_unmatched [] matched log = (ok "", log)
  close_unmatched (e ∷ es) matched log =
      let closed = close_issue e.issue log >>= λ u. close_unmatched es matched in
      let kept = close_unmatched es matched log in
      if is_matched matched e.issue.number
      then kept
      else if has_skip_label im e.issue
      then kept
      else closed

module _ {T : Type 0} (im : Im T) where
  unfoldable pub matches_any : T → List T → Bool
  matches_any d [] = false
  matches_any d (d' ∷ ds) = im.equal d d' || matches_any d ds

  -- The two loops that look for equal entries.
  unfoldable pub has_duplicates : List T → Bool
  has_duplicates [] = false
  has_duplicates (d ∷ ds) = matches_any d ds || has_duplicates ds

-- Reconcile, for a log of the calls made before.
unfoldable pub reconcile :
    {T : Type 0}
    → Github
    → IssueSession T
    → List T
    → List Bytes
    → String
    → Log
    → Reply (List String) × Log
reconcile gh s desired extra message log =
    let loops = settle_all gh s extra desired [] log >>= λ r log'.
    close_unmatched gh s.manager message s.existing_issues r.1 log' >>= λ u log''.
    (ok r.0, log'') in
    if has_duplicates s.manager desired
    then (err (wrapped "duplicate desired state detected" (other 0)), log)
    else if ltb_ℤ s.max_desired (pos (length desired))
    then (err (wrapped "desired issues exceed limit" (other 0)), log)
    else loops
