-- ===== src/Reconcilers/Issues/Open.antt =====
-- NewSession and constructPathLabel of issuemanager/manager.go.
use mathlib.Core.List.{append_assoc}
use go_driftlessaf.Base.{
  ◌-◌, ◌≤◌, ◌≡◌, refl, ◌∙◌, sym, ap, List, [], ◌∷◌, ◌++◌, length, take, length-append, length-take,
  leb, ℤ, pos, leb_ℤ, max_ℤ, Bytes, arith, Bool-cases, inl, inr, ◌<ℤ◌,
}
use go_driftlessaf.Workqueue.Interface.{Reply, ok, err}
use go_driftlessaf.Reconcilers.Issues.{
  Im, Issue, IssueSession, Pages, last_page, page, list_issues, decode_issues, new_session,
  open_session, construct_path_label, max_github_label_length, max_identity_length, new_im, colon,
  session_max, double, default_max_existing_issues,
}

-- The issues of all the pages, if every response has its page.
abbrev pub Listed : Pages → List Issue → Type 0
Listed (last_page r) all = r ≡ ok all
Listed (page r rest) all =
    (first : List Issue) × (others : List Issue) × (r ≡ ok first)
    × Listed rest others
    × (all ≡ first ++ others)

list_issues-Listed :
    (max_existing : ℤ) (seen : List Issue) (pages : Pages) (all : List Issue)
    → list_issues max_existing seen pages ≡ ok all
    → (more : List Issue) × Listed pages more
      × (all ≡ seen ++ more)
      × (pos (length all) <ℤ max_existing)
unfolding list_issues
list_issues-Listed m seen (last_page (err e)) all h = cc
list_issues-Listed m seen (last_page (ok issues)) all h =
    elim (Bool-cases (leb_ℤ m (pos (length (seen ++ issues))))) [
      | inl many ↦ absurd (ground arith)
      | inr few ↦
          let e : seen ++ issues ≡ all = ground arith in
          (issues, refl, sym e, rw (← e) (ground arith))
    ]
list_issues-Listed m seen (page (err e) rest) all h = cc
list_issues-Listed m seen (page (ok issues) rest) all h =
    elim (Bool-cases (leb_ℤ m (pos (length (seen ++ issues))))) [
      | inl many ↦ absurd (ground arith)
      | inr few ↦
          let (more, listed, e, fits) =
            list_issues-Listed m (seen ++ issues) rest all (ground arith) in
          (
            issues ++ more,
            (issues, more, refl, listed, refl),
            e ∙ append_assoc seen issues more,
            fits,
          )
    ]

abbrev result_or : {A : Type 0} → A → Reply A → A
result_or d (ok a) = a
result_or d (err e) = d

-- Two readings of the same pages agree.
Listed-unique :
    (pages : Pages) (all all' : List Issue) → Listed pages all → Listed pages all' → all ≡ all'
Listed-unique (last_page r) all all' h k = ap (result_or all) (sym h ∙ k)
Listed-unique (page r rest) all all' h k =
    let firsts = ap (result_or h.0) (sym h.2 ∙ k.2) in
    let others = Listed-unique rest h.1 k.1 h.3 k.3 in h.4 ∙ rw (firsts, others) (sym k.4)

-- A session starts only from a complete listing: if NewSession succeeds, every page of the listing
-- came without an error, and the session's issues are those of all the pages whose data can be read,
-- without the pull requests; there are fewer issues on the pages than the guard, which is 100 or twice
-- the session's limit if that is more.
pub new_session_complete :
    {T : Type 0} (im : Im T) (path : Bytes) (limits : List ℤ) (pages : Pages) (s : IssueSession T)
    → new_session im path limits pages ≡ ok s
    → (all : List Issue) × Listed pages all
      × (s.manager ≡ im)
      × (s.existing_issues ≡ decode_issues im all)
      × (s.max_desired ≡ session_max im.max_desired_issues limits)
      × (pos (length all) <ℤ max_ℤ (double s.max_desired) default_max_existing_issues)
unfolding new_session
new_session_complete {T} im path limits pages s h =
    opened (list_issues (max_ℤ (double limit) default_max_existing_issues) [] pages) refl h
  where
    limit : ℤ
    limit = session_max im.max_desired_issues limits

    opened :
        (r : Reply (List Issue))
        → list_issues (max_ℤ (double limit) default_max_existing_issues) [] pages ≡ r
        → open_session im (construct_path_label im.sha256_hex im.identity path) limit r ≡ ok s
        → (all : List Issue) × Listed pages all
          × (s.manager ≡ im)
          × (s.existing_issues ≡ decode_issues im all)
          × (s.max_desired ≡ session_max im.max_desired_issues limits)
          × (pos (length all) <ℤ max_ℤ (double s.max_desired) default_max_existing_issues)
    opened (err e) found opens = cc
    opened (ok all) found opens =
        let (more, listed, e, fits) =
          list_issues-Listed (max_ℤ (double limit) default_max_existing_issues) [] pages all
            found in
        let same : result_or s
              (open_session im (construct_path_label im.sha256_hex im.identity path) limit (ok all))
            ≡ s =
          ap (result_or s) opens in
        (
          all,
          rw e listed,
          sym (ap (λ (s : IssueSession T). s.manager) same),
          sym (ap (λ (s : IssueSession T). s.existing_issues) same),
          sym (ap (λ (s : IssueSession T). s.max_desired) same),
          rw (← same) fits,
        )

-- A label fits into GitHub's 50 bytes if New accepts the identity, however long the path is.
pub path_label_fits :
    {T : Type 0} (im : Im T) (path : Bytes)
    → new_im im ≡ ok im
    → length (construct_path_label im.sha256_hex im.identity path) ≤ 50
unfolding construct_path_label new_im
path_label_fits im path accepted =
    elim (Bool-cases (leb (length (im.identity ++ colon ∷ path)) max_github_label_length)) [
      | inl short ↦ rw short (ground arith)
      | inr long ↦
          rw long
            let identity_fits : length im.identity ≤ max_identity_length = short_identity in
              let n = max_github_label_length - length im.identity - 1 in
              omega (
                arith,
                length-append im.identity (colon ∷ take n (im.sha256_hex path)),
                length-take n (im.sha256_hex path),
              )
    ]
  where
    short_identity : length im.identity ≤ max_identity_length
    short_identity = ground arith

-- Two sessions from the same pages have the same issues.
pub new_session-same :
    {T : Type 0} (im : Im T) (path : Bytes) (limits limits' : List ℤ) (pages : Pages)
    (s s' : IssueSession T)
    → new_session im path limits pages ≡ ok s
    → new_session im path limits' pages ≡ ok s'
    → s'.existing_issues ≡ s.existing_issues
new_session-same im path limits limits' pages s s' h h' =
    let (all, listed, m, e, limit, few) = new_session_complete im path limits pages s h in
    let (all', listed', m', e', limit', few') = new_session_complete im path limits' pages s' h' in
    e' ∙ ap (decode_issues im) (Listed-unique pages all' all listed' listed) ∙ sym e
