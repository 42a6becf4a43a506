-- ===== src/PullRequests/Steps.antt =====
-- github_pr_integration.py: the operations as steps of a history.
use developer_assistant.Prelude.{ℕ, String, Bool, List, [], ◌∷◌}
use developer_assistant.Prelude.Text.{Text}
use developer_assistant.Prelude.Results.{ok, err}
use developer_assistant.PullRequests.State.{ReviewGateState}
use developer_assistant.PullRequests.Host.{Host, Integration, Outcome}
use developer_assistant.PullRequests.Integration.{
  register_repository, create_branch_and_open_pr, read_check_status, read_pr_metadata,
  attach_review_artifact, check_merge_gate,
}

-- The operations but `update_project_state`, with their arguments.
pub data Operation : Type 0 where
  register : String → Text → Text → Bool → Bool → Operation
  open_pr : String → Text → Text → Text → Text → Text → Text → Operation
  read_checks : String → Text → Operation
  read_metadata : String → ℕ → Operation
  attach : String → ReviewGateState → Operation
  merge : String → Bool → Operation

abbrev pub forget : {A : Type 0} → Outcome A → Outcome Unit
forget (t, ok a) = (t, ok tt)
forget (t, err e) = (t, err e)

unfoldable pub perform : Host → Operation → Integration → Outcome Unit
perform h (register k owner name create private) t =
    forget (register_repository h k owner name create private t)
perform h (open_pr k ticket branch title body base cwd) t =
    forget (create_branch_and_open_pr h k ticket branch title body base cwd t)
perform h (read_checks k ref) t = forget (read_check_status h k ref t)
perform h (read_metadata k n) t = forget (read_pr_metadata h k n t)
perform h (attach k gate) t = forget (attach_review_artifact h k gate t)
perform h (merge k acknowledgement) t = forget (check_merge_gate h k acknowledgement t)

-- The operations one after the other, whatever they return.
unfoldable pub history : Host → List Operation → Integration → Integration
history h [] t = t
history h (o ∷ os) t = history h os (perform h o t).0
