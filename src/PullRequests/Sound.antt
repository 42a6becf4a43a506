-- ===== src/PullRequests/Sound.antt =====
-- What holds of every project after any history of operations.
use developer_assistant.Prelude.{
  ℕ, String, Bool, true, false, some, List, [], ◌∷◌, ◌≡◌, refl, Bool-cases, inl, inr, arith, eq_iff,
}
use developer_assistant.Prelude.Text.{Text, truthy}
use developer_assistant.Prelude.Dict.{get, get-put}
use developer_assistant.Prelude.Results.{ok, err, Result-cases}
use developer_assistant.PullRequests.State.{
  ReviewGateState, ProjectGitHubState, is_valid_artifact_path,
}
use developer_assistant.PullRequests.Host.{
  Host, Integration, new_integration, project_state, ensure_project_state, record_call, set_state,
  with_repository, with_token, execute_rest, execute_git, rest_call, Outcome, load_token,
  or_default,
}
use developer_assistant.PullRequests.Integration.{
  register_repository, create_branch_and_open_pr, read_check_status, read_pr_metadata,
  attach_review_artifact, check_merge_gate, registered, opened, check_of, linked_body,
}
use developer_assistant.Prelude.Decimal.{decimal}
use developer_assistant.GithubWorkflow.Requests.{
  build_repo_create_request, build_repo_register_request, build_pr_open_request,
  build_check_status_request, build_pr_metadata_request,
}
use developer_assistant.PullRequests.Steps.{
  Operation, register, open_pr, read_checks, read_metadata, attach, merge, forget, perform, history,
}
use developer_assistant.PullRequests.Failing.{
  project_state-set_state, project_state-ensure_project_state,
}

-- An acknowledged project has a branch, and its review gate is the one recorded for its key, an
-- artifact under docs/reviews.
abbrev pub IsSound : String → Integration → Type 0
IsSound j t =
    ((project_state j t).founder_acknowledged ≡ true
      → truthy (project_state j t).active_branch ≡ true)
    × (((project_state j t).review_gate ≡ get j t.review_gates)
        × ((g : ReviewGateState)
            → (project_state j t).review_gate ≡ some g
            → is_valid_artifact_path g ≡ true))

-- The state that takes the place of a project's differs from it in nothing that soundness reads.
abbrev IsAsSound : ProjectGitHubState → ProjectGitHubState → Type 0
IsAsSound s r =
    (s.founder_acknowledged ≡ true → truthy s.active_branch ≡ true)
    × (s.review_gate ≡ r.review_gate)

module _ (j k : String) (s : ProjectGitHubState) (t : Integration) where
  put-IsSound : IsAsSound s (project_state k t) → IsSound j t → IsSound j (set_state k s t)
  unfolding set_state
  put-IsSound e p = ground (arith, e, p, project_state-set_state j k s t, (eq_iff k j).0)

  set-IsSound :
      IsAsSound s (project_state k t)
      → IsSound j t
      → IsSound j (set_state k s (ensure_project_state k t))
  unfolding set_state ensure_project_state
  set-IsSound e p = ground (
    arith,
    e,
    p,
    project_state-set_state j k s (ensure_project_state k t),
    project_state-ensure_project_state j k t,
    (eq_iff k j).0,
  )

ensured : (j k : String) (t : Integration) → IsSound j t → IsSound j (ensure_project_state k t)
unfolding ensure_project_state
ensured j k t p = ground (arith, p, project_state-ensure_project_state j k t)

module _ (h : Host) (t : Integration) (all : (j : String) → IsSound j t) (j : String) where
  metadata-IsSound : (k : String) (n : ℕ) → IsSound j (read_pr_metadata h k n t).0
  unfolding read_pr_metadata with_repository with_token execute_rest record_call
  metadata-IsSound k n = elim (Result-cases (load_token h)) [
    | inl (e, eq) ↦ ground (arith, eq, all j, ensured j k t)
    | inr (token, eq) ↦
        elim (Result-cases (
          h.rest
            (build_pr_metadata_request h.quote (project_state k t).repo_owner
              (project_state k t).repo_name (decimal n))
            token)) [
              | inl (e, r) ↦ ground (arith, eq, r, all j, ensured j k t)
              | inr (answer, r) ↦ ground (
                arith,
                eq,
                r,
                all j,
                all k,
                ensured j k t,
                project_state-ensure_project_state k k t,
                set-IsSound j k
                    (record (project_state k (ensure_project_state k t)) {
                      active_pr_state =
                          or_default (project_state k (ensure_project_state k t)).active_pr_state
                            answer.state;
                    })
                    t,
              )
            ]
  ]

  merge-IsSound : (k : String) (a : Bool) → IsSound j (check_merge_gate h k a t).0
  unfolding check_merge_gate
  merge-IsSound k a = ground (
    arith,
    all j,
    ensured j k t,
    set-IsSound j k (record (project_state k t) { founder_acknowledged = true }) t,
  )

  register-IsSound :
      (k : String) (owner name : Text) (create private : Bool)
      → IsSound j (register_repository h k owner name create private t).0
  unfolding register_repository with_token execute_rest record_call
  register-IsSound k owner name true private = elim (Result-cases (load_token h)) [
    | inl (e, eq) ↦ ground (arith, eq, all j)
    | inr (token, eq) ↦
        elim (Result-cases
          (h.rest (build_repo_create_request h.quote owner name [] private true) token)) [
            | inl (e, r) ↦ ground (arith, eq, r, all j)
            | inr (answer, r) ↦ ground (
              arith,
              eq,
              r,
              set-IsSound j k
                  (registered h owner name (or_default [] answer.html_url) (project_state k t))
                  (record_call
                    (rest_call (build_repo_create_request h.quote owner name [] private true) token)
                    t)
                  ((all k).0, refl) (all j),
            )
          ]
  ]
  register-IsSound k owner name false private = elim (Result-cases (load_token h)) [
    | inl (e, eq) ↦ ground (arith, eq, all j)
    | inr (token, eq) ↦
        elim (Result-cases (h.rest (build_repo_register_request h.quote owner name) token)) [
          | inl (e, r) ↦ ground (arith, eq, r, all j)
          | inr (answer, r) ↦ ground (
            arith,
            eq,
            r,
            set-IsSound j k
                (registered h owner name (or_default [] answer.html_url) (project_state k t))
                (record_call (rest_call (build_repo_register_request h.quote owner name) token) t)
                ((all k).0, refl) (all j),
          )
        ]
  ]

  checks-IsSound : (k : String) (ref : Text) → IsSound j (read_check_status h k ref t).0
  unfolding read_check_status with_repository with_token execute_rest record_call
  checks-IsSound k ref = elim (Result-cases (load_token h)) [
    | inl (e, eq) ↦ ground (arith, eq, all j, ensured j k t)
    | inr (token, eq) ↦
        elim (Result-cases (
          h.rest
            (build_check_status_request h.quote (project_state k t).repo_owner
              (project_state k t).repo_name ref)
            token)) [
              | inl (e, r) ↦ ground (arith, eq, r, all j, ensured j k t)
              | inr (answer, r) ↦ ground (
                arith,
                eq,
                r,
                all j,
                all k,
                ensured j k t,
                project_state-ensure_project_state k k t,
                set-IsSound j k
                    (record (project_state k (ensure_project_state k t)) {
                      check_state = some (check_of h (or_default [] answer.check_runs));
                    })
                    t,
              )
            ]
  ]

  open-IsSound :
      (k : String) (ticket branch title body base cwd : Text)
      → IsSound j (create_branch_and_open_pr h k ticket branch title body base cwd t).0
  unfolding create_branch_and_open_pr with_repository with_token execute_rest execute_git
      record_call
  open-IsSound k ticket branch title body base cwd = elim (Result-cases (load_token h)) [
    | inl (e, eq) ↦ ground (arith, eq, all j, ensured j k t)
    | inr (token, eq) ↦
        elim (Result-cases (
          h.rest
            (build_pr_open_request h.quote (project_state k t).repo_owner
              (project_state k t).repo_name branch base title (linked_body h ticket body))
            token)) [
              | inl (e, r) ↦ ground (arith, eq, r, all j, ensured j k t)
              | inr (answer, r) ↦ ground (
                arith,
                eq,
                r,
                all j,
                all k,
                ensured j k t,
                project_state-ensure_project_state k k t,
                set-IsSound j k
                    (opened h ticket branch answer (project_state k (ensure_project_state k t))) t,
              )
            ]
  ]

  attach-IsSound :
      (k : String) (gate : ReviewGateState) → IsSound j (attach_review_artifact h k gate t).0
  unfolding attach_review_artifact
  attach-IsSound k gate = elim (Bool-cases (is_valid_artifact_path gate)) [
    | inl v ↦ ground (
      arith,
      v,
      all j,
      all k,
      project_state-set_state j k (record (project_state k t) { review_gate = some gate }) t,
      get-put j k gate t.review_gates,
      (eq_iff k j).0,
    )
    | inr v ↦ ground (arith, v, all j)
  ]

forget-IsSound : {A : Type 0} (j : String) (o : Outcome A) → IsSound j o.0 → IsSound j (forget o).0
forget-IsSound j (t, ok a) p = p
forget-IsSound j (t, err e) p = p

module _ (h : Host) where
  perform-IsSound :
      (o : Operation) (t : Integration)
      → ((j : String) → IsSound j t)
      → (j : String) → IsSound j (perform h o t).0
  unfolding perform
  perform-IsSound (register k owner name create private) t all j =
      forget-IsSound j _ (register-IsSound h t all j k owner name create private)
  perform-IsSound (open_pr k ticket branch title body base cwd) t all j =
      forget-IsSound j _ (open-IsSound h t all j k ticket branch title body base cwd)
  perform-IsSound (read_checks k ref) t all j = forget-IsSound j _ (checks-IsSound h t all j k ref)
  perform-IsSound (read_metadata k n) t all j = forget-IsSound j _ (metadata-IsSound h t all j k n)
  perform-IsSound (attach k gate) t all j = forget-IsSound j _ (attach-IsSound h t all j k gate)
  perform-IsSound (merge k a) t all j = forget-IsSound j _ (merge-IsSound h t all j k a)

  go :
      (os : List Operation) (t : Integration)
      → ((j : String) → IsSound j t)
      → (j : String) → IsSound j (history h os t)
  unfolding history
  go [] t all j = all j
  go (o ∷ os) t all j = go os (perform h o t).0 (perform-IsSound o t all) j

  -- After any operations, an acknowledged project has a branch, and its review gate is the one that
  -- is recorded for its key, with the path of an artifact under docs/reviews.
  pub history-IsSound :
      (os : List Operation) (j : String) → IsSound j (history h os new_integration)
  unfolding project_state get
  history-IsSound os = go os new_integration (λ j. ground arith)
