-- ===== src/PullRequests/Opening.antt =====
-- What a pull request that opens leaves, and what a merge command answers.
use developer_assistant.Prelude.{
  String, Bool, true, false, [], ◌∷◌, ◌++◌, ◌≡◌, ◌↔◌, inl, inr, arith,
}
use developer_assistant.Prelude.Text.{Text, truthy, codes}
use developer_assistant.Prelude.Results.{ok, Result-cases}
use developer_assistant.GithubWorkflow.Commands.{
  GitCommand, build_branch_create_command, build_merge_command, validate_branch_name, and_then,
}
use developer_assistant.GithubWorkflow.Requests.{build_pr_open_request}
use developer_assistant.PullRequests.State.{ProjectGitHubState, is_registered}
use developer_assistant.PullRequests.Host.{
  Host, git_call, rest_call, Integration, project_state, ensure_project_state, record_call,
  set_state, with_repository, with_token, execute_rest, execute_git, load_token, Outcome,
}
use developer_assistant.PullRequests.Integration.{
  create_branch_and_open_pr, check_merge_gate, linked_body,
}
use developer_assistant.PullRequests.Failing.{project_state-ensure_project_state}

module _ (h : Host) (k : String) where
  -- A merge command is given out exactly when the project has a branch whose name passes the check
  -- and the founder acknowledges the merge, and it merges this branch.
  pub check_merge_gate_lem :
      (a : Bool) (t : Integration) (cmd : GitCommand)
      → ((check_merge_gate h k a t).1 ≡ ok cmd) ↔ (
          (a ≡ true)
          × ((truthy (project_state k t).active_branch ≡ true)
              × ((validate_branch_name h.unicode (project_state k t).active_branch ≡ ok tt)
                  × (cmd ≡ record {
                    args = codes "merge" ∷ (project_state k t).active_branch ∷ [];
                    cwd = codes ".";
                  }))))
  unfolding check_merge_gate build_merge_command and_then
  check_merge_gate_lem a t cmd = ground arith

  module _ (ticket branch title body base cwd : Text) (t : Integration)
      (s : ProjectGitHubState) where
    abbrev pub result : Outcome ProjectGitHubState
    result = create_branch_and_open_pr h k ticket branch title body base cwd t

    abbrev pub IsOpened : Type 0
    IsOpened =
        (is_registered (project_state k t) ≡ true)
        × ((s.active_branch ≡ branch)
            × ((s.linked_ticket ≡ ticket)
                × ((s.founder_acknowledged ≡ false)
                    × ((s.check_state ≡ (project_state k t).check_state)
                        × (s.review_gate ≡ (project_state k t).review_gate)))))

    abbrev pub IsCalled : GitCommand → Text → Type 0
    IsCalled cmd token =
        (build_branch_create_command h.unicode branch base cwd ≡ ok cmd)
        × ((h.git cmd ≡ ok 0)
            × (result.0.calls
                ≡ (t.calls ++ git_call cmd ∷ [])
                  ++ rest_call
                      (build_pr_open_request h.quote (project_state k t).repo_owner
                        (project_state k t).repo_name branch base title (linked_body h ticket body))
                      token
                    ∷ []))

    opened_by :
        (token : Text) (cmd : GitCommand)
        → load_token h ≡ ok token
        → build_branch_create_command h.unicode branch base cwd ≡ ok cmd
        → result.1 ≡ ok s
        → IsOpened × IsCalled cmd token
    unfolding create_branch_and_open_pr with_repository with_token execute_rest execute_git
        record_call set_state ensure_project_state
    opened_by token cmd l b eq = ground (arith, eq, l, b, project_state-ensure_project_state k k t)

    -- A pull request that opens is one of a registered project: the branch command has run with exit
    -- code 0 before the one request, the state names the branch and the ticket and has no
    -- acknowledgement, and it keeps the check state and the review gate that were there.
    pub create_branch_and_open_pr_lem :
        (create_branch_and_open_pr h k ticket branch title body base cwd t).1 ≡ ok s
        → IsOpened × ((cmd : GitCommand) × ((token : Text) × IsCalled cmd token))
    unfolding create_branch_and_open_pr with_repository with_token
    create_branch_and_open_pr_lem eq = elim (Result-cases (load_token h)) [
      | inl (e, l) ↦ ground (arith, eq, l)
      | inr (token, l) ↦
          elim (Result-cases (build_branch_create_command h.unicode branch base cwd)) [
            | inl (e, b) ↦ ground (arith, eq, l, b)
            | inr (cmd, b) ↦ let o = opened_by token cmd l b eq in (o.0, (cmd, (token, o.1)))
          ]
    ]
