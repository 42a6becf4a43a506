-- ===== src/PullRequests/Failing.antt =====
-- An operation that fails, or is for another project, changes no state of a project.
use developer_assistant.Prelude.{String, ◌≡◌, refl, arith, if◌then◌else◌, str_eq, eq_iff}
use developer_assistant.Prelude.Dict.{get-put}
use developer_assistant.Prelude.Results.{err}
use developer_assistant.PullRequests.State.{ProjectGitHubState, new_project}
use developer_assistant.PullRequests.Host.{
  Host, Call, Failure, Integration, project_state, ensure_project_state, record_call, set_state,
  with_repository, with_token, execute_rest, execute_git,
}
use developer_assistant.PullRequests.Integration.{
  register_repository, create_branch_and_open_pr, read_check_status, read_pr_metadata,
  attach_review_artifact, check_merge_gate,
}
use developer_assistant.PullRequests.Steps.{
  Operation, register, open_pr, read_checks, read_metadata, attach, merge, perform,
}

pub project_state-set_state :
    (j k : String) (s : ProjectGitHubState) (t : Integration)
    → project_state j (set_state k s t) ≡ (if str_eq k j then s else project_state j t)
unfolding project_state set_state
project_state-set_state j k s t = ground (arith, get-put j k s t.project_states)

pub project_state-ensure_project_state :
    (j k : String) (t : Integration)
    → project_state j (ensure_project_state k t) ≡ project_state j t
unfolding project_state ensure_project_state
project_state-ensure_project_state j k t =
    ground (arith, get-put j k new_project t.project_states, (eq_iff k j).0)

pub project_state-record_call :
    (j : String) (c : Call) (t : Integration)
    → project_state j (record_call c t) ≡ project_state j t
unfolding project_state record_call
project_state-record_call j c t = refl

module _ (h : Host) where
  -- An operation that fails leaves the state of every project as it was.
  pub failed_keeps_projects :
      (o : Operation) (t : Integration) (e : Failure) (j : String)
      → (perform h o t).1 ≡ err e
      → project_state j (perform h o t).0 ≡ project_state j t
  unfolding perform register_repository create_branch_and_open_pr read_check_status read_pr_metadata
      attach_review_artifact check_merge_gate with_repository with_token execute_rest execute_git
      record_call
  failed_keeps_projects (register k owner name create private) t e j eq =
      ground (arith, eq, project_state-ensure_project_state j k t)
  failed_keeps_projects (open_pr k ticket branch title body base cwd) t e j eq =
      ground (arith, eq, project_state-ensure_project_state j k t)
  failed_keeps_projects (read_checks k ref) t e j eq =
      ground (arith, eq, project_state-ensure_project_state j k t)
  failed_keeps_projects (read_metadata k n) t e j eq =
      ground (arith, eq, project_state-ensure_project_state j k t)
  failed_keeps_projects (attach k gate) t e j eq = ground (arith, eq)
  failed_keeps_projects (merge k a) t e j eq =
      ground (arith, eq, project_state-ensure_project_state j k t)
