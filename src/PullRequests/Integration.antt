-- ===== src/PullRequests/Integration.antt =====
-- github_pr_integration.py: the operations of GitHubPRIntegration. The state that an operation returns
-- is the project's own.
use developer_assistant.Prelude.{
  ℕ, String, Bool, true, false, not, Option, none, some, List, [], ◌∷◌, ◌++◌, if◌then◌else◌,
}
use developer_assistant.Prelude.Text.{Text, Unicode, codes, truthy}
use developer_assistant.Prelude.Decimal.{decimal}
use developer_assistant.Prelude.Dict.{put}
use developer_assistant.Prelude.Json.{Json}
use developer_assistant.Prelude.Results.{ok, err}
use developer_assistant.GithubWorkflow.Commands.{
  GitCommand, build_branch_create_command, build_merge_command,
}
use developer_assistant.GithubWorkflow.Requests.{
  build_repo_create_request, build_repo_register_request, build_pr_open_request,
  build_check_status_request, build_pr_metadata_request,
}
use developer_assistant.PullRequests.Redaction.{redact_url, redact_value}
use developer_assistant.PullRequests.State.{
  ReviewGateState, is_valid_artifact_path, PrCheckState, ProjectGitHubState,
}
use developer_assistant.PullRequests.Host.{
  CheckRun, Response, Host, refused, bad_artifact, no_branch, unacknowledged, Integration,
  project_state, ensure_project_state, set_state, or_default, Outcome, execute_rest, with_token,
  with_repository, execute_git,
}

module _ (h : Host) where
  abbrev pub registered : Text → Text → Text → ProjectGitHubState → ProjectGitHubState
  registered owner name url s = record s {
    repo_owner = owner;
    repo_name = name;
    repo_url = redact_url h.unicode url;
  }

  unfoldable pub register_repository :
      String → Text → Text → Bool → Bool → Integration → Outcome ProjectGitHubState
  unfolding with_token execute_rest ensure_project_state set_state project_state
  register_repository k owner name create private t = with_token h t (λ token.
      execute_rest h
        (if create
          then build_repo_create_request h.quote owner name [] private true
          else build_repo_register_request h.quote owner name)
        token t
        (λ answer t2.
          let s = registered owner name (or_default [] answer.html_url) (project_state k t2) in
          (set_state k s (ensure_project_state k t2), ok s)))

  unfoldable pub linked_body : Text → Text → Text
  linked_body ticket body =
      if truthy body
      then codes "Linked ticket: " ++ (ticket ++ (codes "\n\n" ++ body))
      else codes "Linked ticket: " ++ ticket

  abbrev pub opened : Text → Text → Response → ProjectGitHubState → ProjectGitHubState
  opened ticket branch answer s = record s {
    active_branch = branch;
    active_pr_number = or_default 0 answer.number;
    active_pr_url = redact_url h.unicode (or_default [] answer.html_url);
    active_pr_state = or_default (codes "open") answer.state;
    linked_ticket = ticket;
    founder_acknowledged = false;
  }

  unfoldable pub create_branch_and_open_pr :
      String → Text → Text → Text → Text → Text → Text → Integration → Outcome ProjectGitHubState
  unfolding with_repository with_token execute_git execute_rest set_state project_state linked_body
  create_branch_and_open_pr k ticket branch title body base cwd t = with_repository h k t (λ t2.
      with_token h t2 (λ token. elim (build_branch_create_command h.unicode branch base cwd) [
        | err e ↦ (t2, err (refused e))
        | ok cmd ↦ execute_git h cmd t2 (λ t3.
            execute_rest h
              (build_pr_open_request h.quote (project_state k t).repo_owner
                (project_state k t).repo_name branch base title (linked_body ticket body))
              token t3
              (λ answer t4.
                let s = opened ticket branch answer (project_state k t4) in
                (set_state k s t4, ok s)))
      ]))

  abbrev pub check_of : List CheckRun → PrCheckState
  check_of [] = record { check_name = []; status = []; conclusion = some [] }
  check_of (r ∷ rs) = record {
    check_name = or_default [] r.name;
    status = or_default [] r.status;
    conclusion = or_default (some []) r.conclusion;
  }

  unfoldable pub read_check_status : String → Text → Integration → Outcome PrCheckState
  unfolding with_repository with_token execute_rest set_state project_state
  read_check_status k ref t = with_repository h k t (λ t2. with_token h t2 (λ token.
      execute_rest h
        (build_check_status_request h.quote (project_state k t).repo_owner
          (project_state k t).repo_name ref)
        token t2
        (λ answer t3.
          let c = check_of (or_default [] answer.check_runs) in
          (set_state k (record (project_state k t3) { check_state = some c }) t3, ok c))))

  unfoldable pub read_pr_metadata : String → ℕ → Integration → Outcome Json
  unfolding with_repository with_token execute_rest set_state project_state
  read_pr_metadata k pr_number t = with_repository h k t (λ t2. with_token h t2 (λ token.
      execute_rest h
        (build_pr_metadata_request h.quote (project_state k t).repo_owner
          (project_state k t).repo_name (decimal pr_number))
        token t2
        (λ answer t3.
          let s = project_state k t3 in
          (
            set_state k (record s { active_pr_state = or_default s.active_pr_state answer.state })
                t3,
            ok (redact_value h.unicode answer.whole),
          ))))

  unfoldable pub attach_review_artifact :
      String → ReviewGateState → Integration → Outcome ReviewGateState
  unfolding ensure_project_state set_state project_state
  attach_review_artifact k gate t =
      if is_valid_artifact_path gate
      then (
        record (set_state k (record (project_state k t) { review_gate = some gate }) t) {
          review_gates = put k gate t.review_gates;
        },
        ok gate,
      )
      else (t, err bad_artifact)

  unfoldable pub check_merge_gate : String → Bool → Integration → Outcome GitCommand
  unfolding ensure_project_state set_state project_state
  check_merge_gate k acknowledgement t =
      let s = project_state k t in
      let t2 = ensure_project_state k t in
      if not (truthy s.active_branch)
      then (t2, err no_branch)
      else if not acknowledgement
      then (t2, err unacknowledged)
      else elim (build_merge_command h.unicode true s.active_branch (codes ".")) [
        | err e ↦ (t2, err (refused e))
        | ok cmd ↦ (set_state k (record s { founder_acknowledged = true }) t2, ok cmd)
      ]

-- The keyword arguments of `update_project_state`.
pub record Update : Type 0 where
  pub repo_owner : Option Text
  pub repo_name : Option Text
  pub repo_url : Option Text
  pub active_branch : Option Text
  pub active_pr_number : Option ℕ
  pub active_pr_url : Option Text
  pub active_pr_state : Option Text
  pub linked_ticket : Option Text
  pub check_state : Option PrCheckState
  pub review_gate : Option ReviewGateState
  pub founder_acknowledged : Option Bool

abbrev pub or_kept : {A : Type 0} → Option A → Option A → Option A
or_kept old none = old
or_kept old (some a) = some a

abbrev pub redacted_or : Unicode → Text → Option Text → Text
redacted_or u old none = old
redacted_or u old (some url) = redact_url u url

unfoldable pub updated : Unicode → Update → ProjectGitHubState → ProjectGitHubState
updated u a s = record {
  repo_owner = or_default s.repo_owner a.repo_owner;
  repo_name = or_default s.repo_name a.repo_name;
  repo_url = redacted_or u s.repo_url a.repo_url;
  active_branch = or_default s.active_branch a.active_branch;
  active_pr_number = or_default s.active_pr_number a.active_pr_number;
  active_pr_url = redacted_or u s.active_pr_url a.active_pr_url;
  active_pr_state = or_default s.active_pr_state a.active_pr_state;
  linked_ticket = or_default s.linked_ticket a.linked_ticket;
  check_state = or_kept s.check_state a.check_state;
  review_gate = or_kept s.review_gate a.review_gate;
  founder_acknowledged = or_default s.founder_acknowledged a.founder_acknowledged;
}

unfoldable pub update_project_state : Unicode → String → Update → Integration → Integration
unfolding set_state project_state updated
update_project_state u k a t = set_state k (updated u a (project_state k t)) t
