-- ===== src/PullRequests/Samples.antt =====
-- The theorems about pull requests at a small host.
use developer_assistant.Prelude.{true, false, none, some, [], ◌∷◌, ◌≡◌, ◌↔◌, refl}
use developer_assistant.Prelude.Text.{
  Text, Unicode, truthy, codes, strip, is_space, contains_any, contains, lower,
}
use developer_assistant.Prelude.Dict.{get}
use developer_assistant.Prelude.Json.{null}
use developer_assistant.Prelude.Results.{ok, err}
use developer_assistant.GithubWorkflow.Commands.{
  GitCommand, validate_branch_name, build_branch_create_command, has_blocked_phrase,
}
use developer_assistant.GithubWorkflow.Credentials.{load_credential, redact_token}
use developer_assistant.Regex.{sub, compile}
use developer_assistant.PullRequests.Redaction.{redact_url, HasNoScheme, redact_url-with_password}
use developer_assistant.PullRequests.State.{ProjectGitHubState, new_project, is_registered}
use developer_assistant.PullRequests.Host.{
  Host, Response, no_branch, Integration, new_integration, project_state,
}
use developer_assistant.PullRequests.Integration.{
  create_branch_and_open_pr, check_merge_gate, opened,
}
use developer_assistant.PullRequests.Steps.{register, merge, perform, history}
use developer_assistant.PullRequests.Failing.{failed_keeps_projects}
use developer_assistant.PullRequests.Sound.{IsSound, history-IsSound}
use developer_assistant.PullRequests.Opening.{
  check_merge_gate_lem, create_branch_and_open_pr_lem, IsOpened, IsCalled,
}

abbrev ascii : Unicode
ascii = record {
  word = λ c. false;
  digit = λ c. false;
  space = λ c. false;
  lower = λ c. c ∷ [];
  fold = λ c. c;
}

abbrev answer : Response
answer = record {
  html_url = some (codes "https://user:x@h/1");
  number = some 7;
  state = none;
  check_runs = none;
  whole = null;
}

abbrev host : Host
host = record {
  unicode = ascii;
  quote = λ s. s;
  credentials_exist = false;
  environ = ("PROJECT_GITHUB_PAT", codes "secret") ∷ [];
  rest = λ r token. ok answer;
  git = λ cmd. ok 0;
}

redacted : redact_url ascii (codes "https://me@h/1") ≡ codes "https://***REDACTED***@h/1"
unfolding redact_url codes redact_token sub compile
redacted = refl

password_stays : redact_url ascii (codes "https://me:x@h") ≡ codes "https://me:x@h"
unfolding redact_url codes redact_token sub compile
password_stays = refl

redact_url-with_password_example :
    redact_url ascii (codes "https://me:x@h") ≡ codes "https://me:x@h"
unfolding codes redact_token sub compile HasNoScheme
redact_url-with_password_example =
    redact_url-with_password ascii true (codes "me") (codes "x") (codes "h") (refl, (refl, tt))
      (
        (refl, refl),
        ((refl, refl), ((refl, refl), ((refl, refl), ((refl, refl), ((refl, refl), tt))))),
      )
      refl

abbrev there : Integration
there = record new_integration {
  project_states = ("p", record new_project { repo_owner = codes "o"; repo_name = codes "r" }) ∷ [];
}

abbrev after_opening : ProjectGitHubState
after_opening = opened host (codes "TKT-1") (codes "b") answer (project_state "p" there)

opens :
    (create_branch_and_open_pr host "p"
      (codes "TKT-1")
      (codes "b")
      (codes "t")
      []
      (codes "main")
      (codes ".")
      there).1
    ≡ ok after_opening
unfolding create_branch_and_open_pr is_registered get codes load_credential strip is_space
    build_branch_create_command validate_branch_name has_blocked_phrase contains_any contains lower
opens = refl

create_branch_and_open_pr_lem_example :
    IsOpened host "p"
      (codes "TKT-1")
      (codes "b")
      (codes "t")
      []
      (codes "main")
      (codes ".")
      there
      after_opening
    × ((cmd : GitCommand) × ((token : Text) × IsCalled host "p"
            (codes "TKT-1")
            (codes "b")
            (codes "t")
            []
            (codes "main")
            (codes ".")
            there
            after_opening
            cmd
            token))
create_branch_and_open_pr_lem_example =
    create_branch_and_open_pr_lem host "p" (codes "TKT-1") (codes "b") (codes "t") [] (codes "main")
      (codes ".") there after_opening opens

abbrev ready : Integration
ready = record new_integration { project_states = ("p", after_opening) ∷ [] }

abbrev merging : GitCommand
merging = record { args = codes "merge" ∷ codes "b" ∷ []; cwd = codes "." }

check_merge_gate_lem_example : ((check_merge_gate host "p" true ready).1 ≡ ok merging) ↔ (
    (true ≡ true)
    × ((truthy (project_state "p" ready).active_branch ≡ true)
        × ((validate_branch_name ascii (project_state "p" ready).active_branch ≡ ok tt)
            × (merging ≡ record {
              args = codes "merge" ∷ (project_state "p" ready).active_branch ∷ [];
              cwd = codes ".";
            }))))
check_merge_gate_lem_example = check_merge_gate_lem host "p" true ready merging

merge_fails : (perform host (merge "q" true) there).1 ≡ err no_branch
unfolding perform check_merge_gate get
merge_fails = refl

failed_keeps_projects_example :
    project_state "p" (perform host (merge "q" true) there).0 ≡ project_state "p" there
failed_keeps_projects_example =
    failed_keeps_projects host (merge "q" true) there no_branch "p" merge_fails

history-IsSound_example : IsSound "p" (
    history host
      (register "p" (codes "o") (codes "r") false true ∷ merge "p" true ∷ [])
      new_integration)
history-IsSound_example =
    history-IsSound host (register "p" (codes "o") (codes "r") false true ∷ merge "p" true ∷ []) "p"
