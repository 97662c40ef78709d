-- ===== src/Reconcilers/Issues/Reconcile.antt =====
-- Reconcile of issuemanager/session.go against the list of the calls that it is to make.
pub mod Safety
use mathlib.Core.List.{append-nil, append_assoc}
use go_driftlessaf.Base.{
  ℕ, ◌≡◌, refl, ◌∙◌, sym, ap, String, false, Option, none, some, List, [], ◌∷◌, ◌++◌, if◌then◌else◌,
  ◌≤ℤ◌, Bytes, str_eq, Bool-cases, inl, inr, length, ltb_ℤ, pos, arith,
}
use go_driftlessaf.Workqueue.Interface.{Reply, ok, err}
use go_driftlessaf.Reconcilers.Issues.{Im, Issue, ExistingIssue, IssueSession}
use go_driftlessaf.Reconcilers.Issues.Labels.{has_skip_label, needs_update}
use go_driftlessaf.Reconcilers.Issues.Session.{
  Call, create, edit, comment, close, Log, Github, ◌>>=◌, send, annotate, find_matching_issue,
  prepare_issue_request, new_labels, create_issue, updated_labels, update_issue, settle, mark,
  settle_all, is_matched, close_issue, close_unmatched, has_duplicates, reconcile,
}

-- The calls were those of a plan, all of them if there is a result, which then has a property, and
-- otherwise a first part of them.
abbrev pub Follows : {A : Type 0} → List Call → (A → Type 0) → Log → Reply A × Log → Type 0
Follows plan P log (ok a, after) = (after ≡ log ++ plan) × P a
Follows plan P log (err e, after) = (left : List Call) × (log ++ plan ≡ after ++ left)

Follows-after :
    {A : Type 0} (p q : List Call) (P : A → Type 0) (log : Log) (r : Reply A × Log)
    → Follows q P (log ++ p) r
    → Follows (p ++ q) P log r
Follows-after p q P log (ok a, after) h = (h.0 ∙ append_assoc log p q, h.1)
Follows-after p q P log (err e, after) h = (h.0, sym (append_assoc log p q) ∙ h.1)

Follows-bind :
    {A B : Type 0} (p q : List Call) (P : A → Type 0) (Q : B → Type 0) (log : Log)
    (r : Reply A × Log) (f : A → Log → Reply B × Log)
    → Follows p P log r
    → ((a : A) (mid : Log) → P a → Follows q Q mid (f a mid))
    → Follows (p ++ q) Q log (r >>= f)
unfolding ◌>>=◌
Follows-bind p q P Q log (ok a, after) f h k =
    Follows-after p q Q log (f a after) (rw (← h.0) (k a after h.1))
Follows-bind p q P Q log (err e, after) f h k =
    (h.0 ++ q, sym (append_assoc log p q) ∙ ap (λ l. l ++ q) h.1 ∙ append_assoc after h.0 q)

Follows-map :
    {A B : Type 0} (p : List Call) (P : A → Type 0) (Q : B → Type 0) (g : A → B) (log : Log)
    (r : Reply A × Log)
    → ((a : A) → P a → Q (g a))
    → Follows p P log r
    → Follows p Q log (r >>= λ a after. (ok (g a), after))
unfolding ◌>>=◌
Follows-map p P Q g log (ok a, after) k h = (h.0, k a h.1)
Follows-map p P Q g log (err e, after) k h = h

abbrev pub Any : {A : Type 0} → A → Type 0
Any a = Unit

Follows-annotate :
    (t : String) (c : Call) (log : Log) (a : Reply String)
    → Follows (c ∷ []) Any log (annotate t (a, log ++ c ∷ []))
Follows-annotate t c log (ok u) = (refl, tt)
Follows-annotate t c log (err e) = ([], sym (append-nil _))

Follows-send :
    (gh : Github) (t : String) (c : Call) (log : Log) → Follows (c ∷ []) Any log (send gh t c log)
unfolding send
Follows-send gh t c log = Follows-annotate t c log (gh log c)

-- The call for a request that was prepared.
abbrev prepared : (String × String → Call) → Reply (String × String) → List Call
prepared f (err e) = []
prepared f (ok r) = f r ∷ []

Follows-prepared :
    (gh : Github) (t : String) (f : String × String → Call) (log : Log)
    (r : Reply (String × String))
    → Follows (prepared f r) Any log ((r, log) >>= λ r. send gh t (f r))
unfolding ◌>>=◌
Follows-prepared gh t f log (err e) = ([], refl)
Follows-prepared gh t f log (ok r) = Follows-send gh t (f r) log

module _ {T : Type 0} (s : IssueSession T) (extra : List Bytes) where
  -- The calls for one entry of the desired state, by the issue that matches it.
  unfoldable pub settle_calls : Option (ExistingIssue T) → T → List Call
  settle_calls none d =
      prepared (λ r. create r.0 r.1 (new_labels s extra d)) (prepare_issue_request s.manager d)
  settle_calls (some e) d =
      if has_skip_label s.manager e.issue
      then []
      else if needs_update s.manager s.path_label e d extra
      then prepared (λ r. edit e.issue.number r.0 r.1 (updated_labels s extra e.issue d))
          (prepare_issue_request s.manager d)
      else []

  unfoldable pub all_settle_calls : List T → List Call
  all_settle_calls [] = []
  all_settle_calls (d ∷ ds) =
      settle_calls (find_matching_issue s.manager s.existing_issues d) d ++ all_settle_calls ds

  -- The numbers of the issues that match.
  unfoldable pub matched_numbers : List T → List ℕ → List ℕ
  matched_numbers [] matched = matched
  matched_numbers (d ∷ ds) matched =
      matched_numbers ds (mark (find_matching_issue s.manager s.existing_issues d) matched)

  module _ (gh : Github) where
    Follows-settle :
        (found : Option (ExistingIssue T)) (d : T) (log : Log)
        → Follows (settle_calls found d) Any log (settle gh s extra found d log)
    unfolding settle settle_calls create_issue update_issue
    Follows-settle none d log =
        Follows-prepared gh "creating issue" (λ r. create r.0 r.1 (new_labels s extra d)) log
          (prepare_issue_request s.manager d)
    Follows-settle (some e) d log = elim (Bool-cases (has_skip_label s.manager e.issue)) [
      | inl skip ↦ rw skip (sym (append-nil log), tt)
      | inr no_skip ↦ elim (Bool-cases (needs_update s.manager s.path_label e d extra)) [
        | inl stale ↦
            rw (no_skip, stale)
              (Follows-prepared gh "updating issue"
                (λ r. edit e.issue.number r.0 r.1 (updated_labels s extra e.issue d)) log
                (prepare_issue_request s.manager d))
        | inr fresh ↦ rw (no_skip, fresh) (sym (append-nil log), tt)
      ]
    ]

    Follows-settle_all :
        (ds : List T) (matched : List ℕ) (log : Log)
        → Follows
            (all_settle_calls ds)
            (λ r. r.1 ≡ matched_numbers ds matched)
            log
            (settle_all gh s extra ds matched log)
    unfolding settle_all all_settle_calls matched_numbers
    Follows-settle_all [] matched log = (sym (append-nil log), refl)
    Follows-settle_all (d ∷ ds) matched log =
        let found = find_matching_issue s.manager s.existing_issues d in
        let P : List String × List ℕ → Type 0 =
          λ r. r.1 ≡ matched_numbers ds (mark found matched) in
        Follows-bind (settle_calls found d) (all_settle_calls ds) Any P log
          (settle gh s extra found d log)
          (λ url log'. settle_all gh s extra ds (mark found matched) log' >>= λ r log''.
            (ok (url ∷ r.0, r.1), log''))
          (Follows-settle found d log)
          (λ url mid any.
            Follows-map (all_settle_calls ds) P P (λ r. (url ∷ r.0, r.1)) mid
              (settle_all gh s extra ds (mark found matched) mid) (λ r h. h)
              (Follows-settle_all ds (mark found matched) mid))

module _ {T : Type 0} (im : Im T) (message : String) where
  abbrev close_calls : Issue → List Call
  close_calls i =
      (if str_eq message "" then [] else comment i.number message ∷ []) ++ close i.number ∷ []

  -- The calls that close the issues that did not match, but for those with the skip label.
  unfoldable pub all_close_calls : List (ExistingIssue T) → List ℕ → List Call
  all_close_calls [] matched = []
  all_close_calls (e ∷ es) matched =
      let rest = all_close_calls es matched in
      if is_matched matched e.issue.number
      then rest
      else if has_skip_label im e.issue
      then rest
      else close_calls e.issue ++ rest

  module _ (gh : Github) where
    Follows-comment :
        (i : Issue) (log : Log)
        → Follows (if str_eq message "" then [] else comment i.number message ∷ []) Any log (
            if str_eq message ""
            then (ok "", log)
            else send gh "posting comment" (comment i.number message) log)
    Follows-comment i log = elim (Bool-cases (str_eq message "")) [
      | inl silent ↦ rw silent (sym (append-nil log), tt)
      | inr loud ↦ rw loud (Follows-send gh "posting comment" (comment i.number message) log)
    ]

    Follows-close_issue :
        (i : Issue) (log : Log) → Follows (close_calls i) Any log (close_issue gh im message i log)
    unfolding close_issue
    Follows-close_issue i log =
        Follows-bind (if str_eq message "" then [] else comment i.number message ∷ [])
          (close i.number ∷ []) Any Any log _ (λ u. send gh "closing issue" (close i.number))
          (Follows-comment i log)
          (λ u mid any. Follows-send gh "closing issue" (close i.number) mid)

    Follows-close_unmatched :
        (es : List (ExistingIssue T)) (matched : List ℕ) (log : Log)
        → Follows
            (all_close_calls es matched)
            Any
            log
            (close_unmatched gh im message es matched log)
    unfolding close_unmatched all_close_calls
    Follows-close_unmatched [] matched log = (sym (append-nil log), tt)
    Follows-close_unmatched (e ∷ es) matched log =
        elim (Bool-cases (is_matched matched e.issue.number)) [
          | inl found ↦ rw found (Follows-close_unmatched es matched log)
          | inr lost ↦ elim (Bool-cases (has_skip_label im e.issue)) [
            | inl skip ↦ rw (lost, skip) (Follows-close_unmatched es matched log)
            | inr no_skip ↦
                rw (lost, no_skip)
                  (Follows-bind (close_calls e.issue) (all_close_calls es matched) Any Any log
                    (close_issue gh im message e.issue log)
                    (λ u. close_unmatched gh im message es matched)
                    (Follows-close_issue e.issue log)
                    (λ u mid any. Follows-close_unmatched es matched mid))
          ]
        ]

-- The calls that a session makes for a desired state.
abbrev pub all_calls : {T : Type 0} → IssueSession T → List T → List Bytes → String → List Call
all_calls s desired extra message =
    all_settle_calls s extra desired
    ++ all_close_calls s.manager message s.existing_issues (matched_numbers s extra desired [])

pub reconcile-Follows :
    {T : Type 0} (gh : Github) (s : IssueSession T) (desired : List T) (extra : List Bytes)
    (message : String) (log : Log)
    → has_duplicates s.manager desired ≡ false
    → pos (length desired) ≤ℤ s.max_desired
    → Follows (all_calls s desired extra message) Any log (reconcile gh s desired extra message log)
unfolding reconcile
reconcile-Follows gh s desired extra message log distinct fits =
    let low : ltb_ℤ s.max_desired (pos (length desired)) ≡ false = ground arith in
    let matched = matched_numbers s extra desired [] in
    let Closed = all_close_calls s.manager message s.existing_issues matched in
    rw (distinct, low)
      (Follows-bind (all_settle_calls s extra desired) Closed (λ r. r.1 ≡ matched) Any log
        (settle_all gh s extra desired [] log)
        (λ r log'. close_unmatched gh s.manager message s.existing_issues r.1 log' >>= λ u log''.
          (ok r.0, log''))
        (Follows-settle_all s extra gh desired [] log)
        (λ r mid h.
          Follows-map Closed Any Any (λ u. r.0) mid
            (close_unmatched gh s.manager message s.existing_issues r.1 mid) (λ u any. tt)
            (rw h (Follows-close_unmatched s.manager message gh s.existing_issues matched mid))))
