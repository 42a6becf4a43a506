-- ===== src/PullRequests/Host.antt =====
-- github_pr_integration.py: the state of GitHubPRIntegration, and the calls that its operations make.
-- The two executors are parameters, and every call of them is recorded in its order; the record of an
-- answer has the members that are read, with the types that the REST API documents for them.
use developer_assistant.Prelude.{
  ℕ, String, Bool, Option, none, some, List, [], ◌∷◌, ◌++◌, ◌==◌, if◌then◌else◌,
}
use developer_assistant.Prelude.Text.{Text, Unicode}
use developer_assistant.Prelude.Dict.{Dict, get, put}
use developer_assistant.Prelude.Json.{Json}
use developer_assistant.Prelude.Results.{Result, ok, err}
use developer_assistant.GithubWorkflow.Credentials.{Refusal, load_credential, redact_token}
use developer_assistant.GithubWorkflow.Commands.{GitCommand}
use developer_assistant.GithubWorkflow.Requests.{GitHubRestRequest}
use developer_assistant.PullRequests.State.{
  ReviewGateState, ProjectGitHubState, new_project, is_registered,
}

pub record CheckRun : Type 0 where
  pub name : Option Text
  pub status : Option Text
  pub conclusion : Option (Option Text)

-- `whole` is the value itself.
pub record Response : Type 0 where
  pub html_url : Option Text
  pub number : Option ℕ
  pub state : Option Text
  pub check_runs : Option (List CheckRun)
  pub whole : Json

-- The environment and the executors: an executor answers, or raises an exception with a text.
pub record Host : Type 0 where
  pub unicode : Unicode
  pub quote : Text → Text
  pub credentials_exist : Bool
  pub environ : Dict Text
  pub rest : GitHubRestRequest → Text → Result Text Response
  pub git : GitCommand → Result Text ℕ

pub data Call : Type 0 where
  git_call : GitCommand → Call
  rest_call : GitHubRestRequest → Text → Call

-- `refused` is an error of github_workflow.py, `unacknowledged` the MergeGateError, and the others are
-- the IntegrationErrors.
pub data Failure : Type 0 where
  refused : Refusal → Failure
  call_failed : Text → Failure
  exit_code : ℕ → Failure
  not_registered bad_artifact no_branch unacknowledged : Failure

pub record Integration : Type 0 where
  pub project_states : Dict ProjectGitHubState
  pub review_gates : Dict ReviewGateState
  pub calls : List Call

-- GitHubPRIntegration()
abbrev pub new_integration : Integration
new_integration = record { project_states = []; review_gates = []; calls = [] }

abbrev pub or_new : Option ProjectGitHubState → ProjectGitHubState
or_new none = new_project
or_new (some s) = s

-- The state that `_ensure_project_state` returns.
unfoldable pub project_state : String → Integration → ProjectGitHubState
project_state k t = or_new (get k t.project_states)

-- What `_ensure_project_state` leaves.
unfoldable pub ensure_project_state : String → Integration → Integration
ensure_project_state k t = elim (get k t.project_states) [
  | none ↦ record t { project_states = put k new_project t.project_states }
  | some s ↦ t
]

unfoldable pub set_state : String → ProjectGitHubState → Integration → Integration
set_state k s t = record t { project_states = put k s t.project_states }

unfoldable pub record_call : Call → Integration → Integration
record_call c t = record t { calls = t.calls ++ c ∷ [] }

-- d.get(name, default)
abbrev pub or_default : {A : Type 0} → A → Option A → A
or_default a none = a
or_default a (some b) = b

abbrev pub Outcome : Type 0 → Type 0
Outcome A = Integration × Result Failure A

module _ (h : Host) where
  unfoldable pub load_token : Result Refusal Text
  load_token = load_credential h.unicode h.credentials_exist none h.environ "PROJECT_GITHUB_PAT"

  -- A call of the REST executor, after which `done` goes on with the answer.
  unfoldable pub execute_rest :
      {A : Type 0}
      → GitHubRestRequest
      → Text
      → Integration
      → (Response → Integration → Outcome A)
      → Outcome A
  unfolding record_call
  execute_rest request token t done = elim (h.rest request token) [
    | err e ↦
        (record_call (rest_call request token) t, err (call_failed (redact_token h.unicode e)))
    | ok answer ↦ done answer (record_call (rest_call request token) t)
  ]

  -- `_load_token`, after which `done` goes on with the token.
  unfoldable pub with_token : {A : Type 0} → Integration → (Text → Outcome A) → Outcome A
  unfolding load_token
  with_token t done = elim load_token [ err e ↦ (t, err (refused e)) | ok token ↦ done token ]

  -- The guard for a registered repository, after which `done` goes on.
  unfoldable pub with_repository :
      {A : Type 0} → String → Integration → (Integration → Outcome A) → Outcome A
  unfolding ensure_project_state project_state
  with_repository k t done =
      let t2 = ensure_project_state k t in
      if is_registered (project_state k t) then done t2 else (t2, err not_registered)

  -- A run of the branch command, after which `done` goes on if the exit code is 0.
  unfoldable pub execute_git :
      {A : Type 0} → GitCommand → Integration → (Integration → Outcome A) → Outcome A
  unfolding record_call
  execute_git cmd t done = elim (h.git cmd) [
    | err e ↦ (record_call (git_call cmd) t, err (call_failed (redact_token h.unicode e)))
    | ok code ↦
        if code == 0
        then done (record_call (git_call cmd) t)
        else (record_call (git_call cmd) t, err (exit_code code))
  ]
