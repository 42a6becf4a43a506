-- ===== src/GithubWorkflow/Credentials.antt =====
-- github_workflow.py: the sources of the credential, and the tokens that a text holds. The file
-- system, the environment and the home directory are arguments; the texts of the errors are not
-- modelled.
use developer_assistant.Prelude.{
  String, Bool, true, false, not, ◌&&◌, ◌||◌, Option, none, some, List, [], ◌∷◌, if◌then◌else◌, map,
  ◌==◌,
}
use developer_assistant.Prelude.Text.{Text, Unicode, codes, lower, contains_any, strip, truthy}
use developer_assistant.Prelude.Dict.{Dict, get}
use developer_assistant.Prelude.Results.{Result, ok, err}
use developer_assistant.Regex.{compile, search_text, sub}

pub data Refusal : Type 0 where
  credential_source dangerous_operation merge_blocked : Refusal

abbrev token_patterns : String
token_patterns =
    "ghp_[A-Za-z0-9]{36}|github_pat_[A-Za-z0-9_]{22,}[A-Za-z0-9]|gho_[A-Za-z0-9]{36}|ghu_[A-Za-z0-9]{36}|ghs_[A-Za-z0-9]{36}|ghr_[A-Za-z0-9]{36}"

unfoldable pub has_token : Unicode → Text → Bool
has_token u s = search_text u (compile false false token_patterns) s

unfoldable pub redact_token : Unicode → Text → Text
redact_token u s = sub u (compile false false token_patterns) (codes "***REDACTED***") s

-- `[^@/]*@` from here, and whether a character came before.
ends_user : Bool → Text → Bool
ends_user begun [] = false
ends_user begun (c ∷ s) =
    let rest = ends_user true s in if c == b'@' then begun else if c == b'/' then false else rest

-- `://[^@/]+@` from here
user_here : Text → Bool
unfolding ends_user
user_here (a ∷ b ∷ c ∷ s) = (a == b':' && (b == b'/' && c == b'/')) && ends_user false s
user_here _ = false

unfoldable pub has_user : Text → Bool
unfolding user_here
has_user [] = false
has_user (c ∷ s) = user_here (c ∷ s) || has_user s

unfoldable pub check_for_token_in_remote : Unicode → Text → Result Refusal Unit
check_for_token_in_remote u url =
    if has_user url
    then err credential_source
    else if has_token u url
    then err credential_source
    else ok tt

abbrev blocked_sources : List String
blocked_sources =
    "~/.git-credentials" ∷ ".git-credentials" ∷ "git-credentials" ∷ "token-in-remote"
    ∷ "remote url token" ∷ "committed config" ∷ "config file token" ∷ "cli argument"
    ∷ "command line token" ∷ "--token" ∷ "-t " ∷ []

unfoldable pub reject_credential_source : Unicode → Text → Result Refusal Unit
reject_credential_source u source =
    if contains_any (lower u source) (map codes blocked_sources)
    then err credential_source
    else ok tt

-- environ.get(name, "").strip()
unfoldable pub variable : Unicode → Dict Text → String → Text
variable u environ name = elim (get name environ) [ some v ↦ strip u v | none ↦ [] ]

-- What the environment gives once the file and the remote have passed.
unfoldable pub from_environment : Unicode → Dict Text → String → Result Refusal Text
unfolding variable
from_environment u environ env_var =
    if truthy (variable u environ "GITHUB_TOKEN") && not (truthy (variable u environ env_var))
    then err credential_source
    else if not (truthy (variable u environ env_var))
    then err credential_source
    else ok (variable u environ env_var)

unfoldable pub after_remote : Result Refusal Unit → Result Refusal Text → Result Refusal Text
after_remote (err x) r = err x
after_remote (ok tt) r = r

-- `credentials_exist` says whether the file `~/.git-credentials` exists.
unfoldable pub load_credential :
    Unicode → Bool → Option Text → Dict Text → String → Result Refusal Text
unfolding from_environment after_remote
load_credential u credentials_exist remote_url environ env_var =
    if credentials_exist then err credential_source else elim remote_url [
      | some url ↦
          after_remote (check_for_token_in_remote u url) (from_environment u environ env_var)
      | none ↦ from_environment u environ env_var
    ]
