-- ===== src/GithubWorkflow/Samples.antt =====
-- The theorems about github_workflow.py at small commands.
use developer_assistant.Prelude.{map, arith, true, false, none, List, [], ◌∷◌, ◌≡◌, refl}
use developer_assistant.Prelude.Text.{
  Text, codes, contains_any, truthy, lower, contains, starts_with, text_in, same_text, strip,
  is_space,
}
use developer_assistant.Prelude.Dict.{Dict, get}
use developer_assistant.Prelude.Results.{ok}
use developer_assistant.GithubWorkflow.Phrases.{
  member, LowersToNoD, other_phrases, capital_phrase_blocks_nothing,
}
use developer_assistant.Regex.Samples.{ascii_only}
use developer_assistant.GithubWorkflow.Credentials.{variable, load_credential, from_environment}
use developer_assistant.GithubWorkflow.Commands.{
  GitCommand, has_blocked_flag, has_blocked_phrase, join_args, validate_branch_name,
  build_merge_command, validate_git_args, Completed, execute_git_command, redact_output,
}
use developer_assistant.GithubWorkflow.Safety.{RemotePasses, loaded_from_variable}

abbrev environment : Dict Text
environment = ("PROJECT_GITHUB_PAT", codes " secret ") ∷ []

loads : load_credential ascii_only false none environment "PROJECT_GITHUB_PAT" ≡ ok (codes "secret")
unfolding load_credential from_environment variable get strip is_space codes
loads = refl

loaded_from_variable_example :
    (false ≡ false)
    × RemotePasses ascii_only none
    × (codes "secret" ≡ variable ascii_only environment "PROJECT_GITHUB_PAT")
    × (truthy (codes "secret") ≡ true)
loaded_from_variable_example =
    loaded_from_variable ascii_only false none environment "PROJECT_GITHUB_PAT" (codes "secret")
      loads

abbrev merge_main : GitCommand
merge_main = record { args = codes "merge" ∷ codes "main" ∷ []; cwd = codes "." }

merges : build_merge_command ascii_only true (codes "main") (codes ".") ≡ ok merge_main
unfolding build_merge_command validate_branch_name has_blocked_phrase contains_any contains
    starts_with lower codes
merges = refl

main_is_named : truthy (codes "main") ≡ true
unfolding codes
main_is_named = refl

abbrev quiet : List Text → Text → Completed
quiet args cwd = record { returncode = 0; stdout = codes "done"; stderr = cwd }

executes :
    execute_git_command ascii_only quiet false merge_main
    ≡ ok (redact_output ascii_only (quiet merge_main.args merge_main.cwd))
unfolding execute_git_command validate_git_args has_blocked_flag has_blocked_phrase join_args
    text_in same_text contains_any contains starts_with lower codes
executes = refl

-- The phrase "branch -D" is looked for in a text of small letters.
branch_delete_passes : validate_branch_name ascii_only (codes "branch -D") ≡ ok tt
unfolding validate_branch_name has_blocked_phrase contains_any contains starts_with lower codes
branch_delete_passes = refl

lowers_to_no_d : LowersToNoD ascii_only
unfolding member
lowers_to_no_d c h = ground arith

capital_phrase_blocks_nothing_example :
    has_blocked_phrase ascii_only (codes "git branch -D main")
    ≡ contains_any (lower ascii_only (codes "git branch -D main")) (map codes other_phrases)
capital_phrase_blocks_nothing_example =
    capital_phrase_blocks_nothing ascii_only lowers_to_no_d (codes "git branch -D main")
