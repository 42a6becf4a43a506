-- ===== src/GithubWorkflow/Commands.antt =====
-- github_workflow.py: the git commands that are built, and the check before one is executed. The
-- process is a parameter: it takes the arguments after `git` and the directory.
use developer_assistant.Prelude.{
  ℕ, String, Bool, false, not, ◌||◌, List, [], ◌∷◌, ◌++◌, if◌then◌else◌, map,
}
use developer_assistant.Prelude.Text.{
  Text, Unicode, codes, lower, contains_any, starts_with, truthy, text_in,
}
use developer_assistant.Prelude.Results.{Result, ok, err}
use developer_assistant.GithubWorkflow.Credentials.{
  Refusal, dangerous_operation, merge_blocked, check_for_token_in_remote, redact_token,
}

pub record GitCommand : Type 0 where
  pub args : List Text
  pub cwd : Text

abbrev pub blocked_git_flags : List String
blocked_git_flags = "--force" ∷ "-f" ∷ "--hard" ∷ "-D" ∷ "--delete" ∷ "--force-with-lease" ∷ []

-- A set: the order in which its texts are asked decides nothing but the text of the error.
abbrev pub blocked_phrases : List String
blocked_phrases =
    "force push" ∷ "hard reset" ∷ "branch -D" ∷ "branch --delete" ∷ "reset --hard" ∷ "push --force"
    ∷ "push -f" ∷ "push --force-with-lease" ∷ []

-- " ".join(args)
unfoldable pub join_args : List Text → Text
join_args [] = []
join_args (a ∷ []) = a
join_args (a ∷ b ∷ rest) = a ++ 32 ∷ join_args (b ∷ rest)

any_in : List Text → List Text → Bool
any_in [] ts = false
any_in (a ∷ rest) ts = text_in a ts || any_in rest ts

unfoldable pub has_blocked_flag : List Text → Bool
unfolding any_in
has_blocked_flag args = any_in args (map codes blocked_git_flags)

unfoldable pub has_blocked_phrase : Unicode → Text → Bool
has_blocked_phrase u s = contains_any (lower u s) (map codes blocked_phrases)

unfoldable pub validate_git_args : Unicode → List Text → Result Refusal (List Text)
validate_git_args u args =
    if has_blocked_flag args
    then err dangerous_operation
    else if has_blocked_phrase u (join_args args)
    then err dangerous_operation
    else ok args

abbrev pub metacharacters : List Text
metacharacters = codes ";" ∷ codes "&" ∷ codes "|" ∷ codes "`" ∷ codes "$" ∷ []

unfoldable pub validate_branch_name : Unicode → Text → Result Refusal Unit
validate_branch_name u name =
    if not (truthy name)
    then ok tt
    else if has_blocked_phrase u name
    then err dangerous_operation
    else if contains_any name metacharacters
    then err dangerous_operation
    else ok tt

unfoldable pub looks_like_url : Text → Bool
looks_like_url s =
    starts_with s (codes "http://")
    || (starts_with s (codes "https://")
        || (starts_with s (codes "git://") || starts_with s (codes "ssh://")))

unfoldable pub and_then :
    Result Refusal Unit → Result Refusal GitCommand → Result Refusal GitCommand
and_then (err x) r = err x
and_then (ok tt) r = r

unfoldable pub build_branch_create_command :
    Unicode → Text → Text → Text → Result Refusal GitCommand
unfolding and_then
build_branch_create_command u branch_name base cwd = and_then (validate_branch_name u branch_name) (
    and_then (validate_branch_name u base)
      (ok (record { args = codes "checkout" ∷ codes "-b" ∷ branch_name ∷ base ∷ []; cwd = cwd })))

-- The message takes no part in the command.
unfoldable pub build_commit_push_command :
    Unicode → Text → Text → Text → Text → Result Refusal GitCommand
unfolding and_then
build_commit_push_command u message remote branch cwd =
    if looks_like_url remote
    then and_then (check_for_token_in_remote u remote) (err dangerous_operation)
    else and_then (validate_branch_name u branch)
        (ok (record { args = codes "push" ∷ remote ∷ branch ∷ []; cwd = cwd }))

unfoldable pub build_merge_command : Unicode → Bool → Text → Text → Result Refusal GitCommand
unfolding and_then
build_merge_command u founder_acknowledgement branch cwd =
    if not founder_acknowledgement
    then err merge_blocked
    else and_then (validate_branch_name u branch)
        (ok (record { args = codes "merge" ∷ branch ∷ []; cwd = cwd }))

-- The part of `subprocess.CompletedProcess` that is read.
pub record Completed : Type 0 where
  pub returncode : ℕ
  pub stdout : Text
  pub stderr : Text

unfoldable pub to_cmdline : Unicode → GitCommand → Text
to_cmdline u cmd = redact_token u (join_args (codes "git" ∷ cmd.args))

unfoldable pub redact_output : Unicode → Completed → Completed
redact_output u c = record c { stdout = redact_token u c.stdout; stderr = redact_token u c.stderr }

unfoldable pub execute_git_command :
    Unicode → (List Text → Text → Completed) → Bool → GitCommand → Result Refusal Completed
unfolding to_cmdline redact_output
execute_git_command u process dry_run cmd = elim (validate_git_args u cmd.args) [
  | err x ↦ err x
  | ok args ↦
      if dry_run
      then ok (record {
        returncode = 0;
        stdout = codes "[dry-run] " ++ redact_token u (to_cmdline u cmd);
        stderr = [];
      })
      else ok (redact_output u (process cmd.args cmd.cwd))
]
