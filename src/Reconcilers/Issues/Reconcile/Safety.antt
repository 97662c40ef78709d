-- ===== src/Reconcilers/Issues/Reconcile/Safety.antt =====
-- What Reconcile of issuemanager/session.go never asks of GitHub, however GitHub answers.
use go_driftlessaf.Base.{
  ℕ, ◌≡◌, refl, String, Bool, true, false, Option, none, some, List, [], ◌∷◌, ◌++◌, ◌==◌, Bytes,
  str_eq, Bool-cases, inl, inr, length, ltb_ℤ, pos, arith, All, All-append,
}
use go_driftlessaf.Workqueue.Interface.{Reply, ok, err}
use go_driftlessaf.Reconcilers.Issues.{Im, ExistingIssue, IssueSession}
use go_driftlessaf.Reconcilers.Issues.Labels.{has_skip_label, needs_update}
use go_driftlessaf.Reconcilers.Issues.Session.{
  Call, create, edit, comment, close, Log, Github, find_matching_issue, prepare_issue_request, mark,
  is_matched, has_duplicates, reconcile, new_labels, updated_labels,
}
use go_driftlessaf.Reconcilers.Issues.Reconcile.{
  Follows, Any, prepared, settle_calls, all_settle_calls, matched_numbers, close_calls,
  all_close_calls, all_calls, reconcile-Follows,
}

-- A call that changes the issue of a number, and one that closes it or announces that.
unfoldable pub addresses : ℕ → Call → Bool
addresses n (create title body labels) = false
addresses n (edit m title body labels) = m == n
addresses n (comment m message) = m == n
addresses n (close m) = m == n

unfoldable pub closes : ℕ → Call → Bool
closes n (close m) = m == n
closes n (comment m message) = m == n
closes n _ = false

All-first : {A : Type 0} (P : A → Type 0) (xs ys : List A) → All P (xs ++ ys) → All P xs
All-first P [] ys h = tt
All-first P (x ∷ xs) ys h = (h.0, All-first P xs ys h.1)

Follows-All :
    {A : Type 0} (P : Call → Type 0) (plan : List Call) (Q : A → Type 0) (r : Reply A × Log)
    → Follows plan Q [] r
    → All P plan
    → All P r.1
Follows-All P plan Q (ok a, after) h k = rw h.0 k
Follows-All P plan Q (err e, after) h k = All-first P after h.0 (rw (← h.1) k)

reconcile-All :
    {T : Type 0} (P : Call → Type 0) (gh : Github) (s : IssueSession T) (desired : List T)
    (extra : List Bytes) (message : String)
    → All P (all_calls s desired extra message)
    → All P (reconcile gh s desired extra message []).1
unfolding reconcile
reconcile-All P gh s desired extra message h =
    elim (Bool-cases (has_duplicates s.manager desired)) [
      | inl twice ↦ rw twice tt
      | inr distinct ↦ elim (Bool-cases (ltb_ℤ s.max_desired (pos (length desired)))) [
        | inl more ↦ rw (distinct, more) tt
        | inr fits ↦
            Follows-All P (all_calls s desired extra message) Any
              (reconcile gh s desired extra message [])
              (reconcile-Follows gh s desired extra message [] distinct (ground arith)) h
      ]
    ]

find_matching_issue-All :
    {T : Type 0} (im : Im T) (P : ExistingIssue T → Type 0) (es : List (ExistingIssue T)) (d : T)
    (e : ExistingIssue T)
    → All P es
    → find_matching_issue im es d ≡ some e
    → P e
unfolding find_matching_issue
find_matching_issue-All im P [] d e h found = cc
find_matching_issue-All im P (e' ∷ es) d e h found = elim (Bool-cases (im.equal e'.data_of d)) [
  | inl same ↦ let at_head : e' ≡ e = cc in rw (← at_head) h.0
  | inr differs ↦ find_matching_issue-All im P es d e h.1 (ground arith)
]

All-Any : {A : Type 0} (xs : List A) → All Any xs
All-Any [] = tt
All-Any (x ∷ xs) = (tt, All-Any xs)

prepared-All :
    (P : Call → Type 0) (f : String × String → Call) (r : Reply (String × String))
    → ((r : String × String) → P (f r))
    → All P (prepared f r)
prepared-All P f (err e) h = tt
prepared-All P f (ok r) h = (h r, tt)

module _ {T : Type 0} (s : IssueSession T) (extra : List Bytes) where
  -- If the issue that matches is let alone, so is every call for the desired state.
  settle_calls-All :
      (P : Call → Type 0) (found : Option (ExistingIssue T)) (d : T)
      → ((title body : String) (labels : List Bytes) → P (create title body labels))
      → ((e : ExistingIssue T)
          → found ≡ some e
          → has_skip_label s.manager e.issue ≡ false
          → (title body : String) (labels : List Bytes) → P (edit e.issue.number title body labels))
      → All P (settle_calls s extra found d)
  unfolding settle_calls
  settle_calls-All P none d new old =
      prepared-All P _ (prepare_issue_request s.manager d) (λ r. new r.0 r.1 (new_labels s extra d))
  settle_calls-All P (some e) d new old = elim (Bool-cases (has_skip_label s.manager e.issue)) [
    | inl skip ↦ rw skip tt
    | inr no_skip ↦ elim (Bool-cases (needs_update s.manager s.path_label e d extra)) [
      | inl stale ↦
          rw (no_skip, stale)
            (prepared-All P _ (prepare_issue_request s.manager d)
              (λ r. old e refl no_skip r.0 r.1 (updated_labels s extra e.issue d)))
      | inr fresh ↦ rw (no_skip, fresh) tt
    ]
  ]

  all_settle_calls-All :
      (P : Call → Type 0) (Q : ExistingIssue T → Type 0) (ds : List T)
      → All Q s.existing_issues
      → ((title body : String) (labels : List Bytes) → P (create title body labels))
      → ((e : ExistingIssue T)
          → Q e
          → has_skip_label s.manager e.issue ≡ false
          → (title body : String) (labels : List Bytes) → P (edit e.issue.number title body labels))
      → All P (all_settle_calls s extra ds)
  unfolding all_settle_calls
  all_settle_calls-All P Q [] h new old = tt
  all_settle_calls-All P Q (d ∷ ds) h new old =
      All-append P (settle_calls s extra (find_matching_issue s.manager s.existing_issues d) d)
        (all_settle_calls s extra ds)
        (settle_calls-All P (find_matching_issue s.manager s.existing_issues d) d new
          (λ e found. old e (find_matching_issue-All s.manager Q s.existing_issues d e h found)))
        (all_settle_calls-All P Q ds h new old)

  matched_numbers-grows :
      (n : ℕ) (ds : List T) (matched : List ℕ)
      → is_matched matched n ≡ true
      → is_matched (matched_numbers s extra ds matched) n ≡ true
  unfolding matched_numbers
  matched_numbers-grows n [] matched h = h
  matched_numbers-grows n (d ∷ ds) matched h =
      matched_numbers-grows n ds (mark (find_matching_issue s.manager s.existing_issues d) matched)
        (marked (find_matching_issue s.manager s.existing_issues d))
    where
      marked : (found : Option (ExistingIssue T)) → is_matched (mark found matched) n ≡ true
      marked none = h
      marked (some e) = ground arith

  marked_first :
      (found : Option (ExistingIssue T)) (e : ExistingIssue T) (matched : List ℕ)
      → found ≡ some e
      → is_matched (mark found matched) e.issue.number ≡ true
  marked_first none e matched h = cc
  marked_first (some e') e matched h = let at_head : e' ≡ e = cc in rw at_head (ground arith)

  matched_numbers-finds :
      (ds : List T) (d : T) (ds' : List T) (e : ExistingIssue T) (matched : List ℕ)
      → find_matching_issue s.manager s.existing_issues d ≡ some e
      → is_matched (matched_numbers s extra (ds ++ d ∷ ds') matched) e.issue.number ≡ true
  unfolding matched_numbers
  matched_numbers-finds [] d ds' e matched found =
      matched_numbers-grows e.issue.number ds'
        (mark (find_matching_issue s.manager s.existing_issues d) matched)
        (marked_first (find_matching_issue s.manager s.existing_issues d) e matched found)
  matched_numbers-finds (c ∷ ds) d ds' e matched found =
      matched_numbers-finds ds d ds' e
        (mark (find_matching_issue s.manager s.existing_issues c) matched) found

module _ {T : Type 0} (im : Im T) (message : String) where
  all_close_calls-All :
      (P : Call → Type 0) (Q : ExistingIssue T → Type 0) (es : List (ExistingIssue T))
      (matched : List ℕ)
      → All Q es
      → ((e : ExistingIssue T)
          → Q e
          → is_matched matched e.issue.number ≡ false
          → has_skip_label im e.issue ≡ false
          → P (comment e.issue.number message) × P (close e.issue.number))
      → All P (all_close_calls im message es matched)
  unfolding all_close_calls
  all_close_calls-All P Q [] matched h k = tt
  all_close_calls-All P Q (e ∷ es) matched h k =
      elim (Bool-cases (is_matched matched e.issue.number)) [
        | inl found ↦ rw found (all_close_calls-All P Q es matched h.1 k)
        | inr lost ↦ elim (Bool-cases (has_skip_label im e.issue)) [
          | inl skip ↦ rw (lost, skip) (all_close_calls-All P Q es matched h.1 k)
          | inr no_skip ↦
              rw (lost, no_skip)
                (All-append P (close_calls im message e.issue)
                  (all_close_calls im message es matched) (announced (k e h.0 lost no_skip))
                  (all_close_calls-All P Q es matched h.1 k))
        ]
      ]
    where
      announced :
          P (comment e.issue.number message) × P (close e.issue.number)
          → All P (close_calls im message e.issue)
      announced h = elim (Bool-cases (str_eq message "")) [
        | inl silent ↦ rw silent (h.1, tt)
        | inr loud ↦ rw loud (h.0, (h.1, tt))
      ]

-- An issue with the skip label is left alone: if every open issue of the path with a number has the
-- label, no call of Reconcile edits, closes or comments on that number.
pub reconcile_skips :
    {T : Type 0} (gh : Github) (s : IssueSession T) (desired : List T) (extra : List Bytes)
    (message : String) (n : ℕ)
    → All (λ e. e.issue.number ≡ n → has_skip_label s.manager e.issue ≡ true) s.existing_issues
    → All (λ c. addresses n c ≡ false) (reconcile gh s desired extra message []).1
unfolding addresses
reconcile_skips gh s desired extra message n skipped =
    let P : Call → Type 0 = λ c. addresses n c ≡ false in
    let Q : ExistingIssue _ → Type 0 =
      λ e. e.issue.number ≡ n → has_skip_label s.manager e.issue ≡ true in
    reconcile-All P gh s desired extra message (
      All-append P (all_settle_calls s extra desired) _
        (all_settle_calls-All s extra P Q desired skipped (λ title body labels. refl)
          (λ e h no_skip title body labels. ground (arith, h)))
        (all_close_calls-All s.manager message P Q s.existing_issues
          (matched_numbers s extra desired []) skipped
          (λ e h lost no_skip. (ground (arith, h), ground (arith, h)))))

-- A tracked issue that is still desired stays open: no call of Reconcile closes, or comments on, the
-- issue that matches an entry of the desired state.
pub reconcile_keeps_matched :
    {T : Type 0} (gh : Github) (s : IssueSession T) (before : List T) (d : T) (after : List T)
    (extra : List Bytes) (message : String) (e : ExistingIssue T)
    → find_matching_issue s.manager s.existing_issues d ≡ some e
    → All
        (λ c. closes e.issue.number c ≡ false)
        (reconcile gh s (before ++ d ∷ after) extra message []).1
unfolding closes
reconcile_keeps_matched gh s before d after extra message e found =
    let desired = before ++ d ∷ after in
    let P : Call → Type 0 = λ c. closes e.issue.number c ≡ false in
    let kept = matched_numbers-finds s extra before d after e [] found in
    reconcile-All P gh s desired extra message (
      All-append P (all_settle_calls s extra desired) _
        (all_settle_calls-All s extra P Any desired (All-Any s.existing_issues)
          (λ title body labels. refl) (λ e h no_skip title body labels. refl))
        (all_close_calls-All s.manager message P Any s.existing_issues
          (matched_numbers s extra desired []) (All-Any s.existing_issues)
          (λ e' h lost no_skip. (ground arith, ground arith))))
