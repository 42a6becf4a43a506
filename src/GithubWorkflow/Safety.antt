-- ===== src/GithubWorkflow/Safety.antt =====
-- What the git commands and the credential promise.
use developer_assistant.Prelude.{
  String, Bool, true, false, Option, none, some, [], ◌∷◌, ◌≡◌, refl, arith,
}
use developer_assistant.Prelude.Text.{Text, Unicode, codes, contains_any, truthy}
use developer_assistant.Prelude.Dict.{Dict}
use developer_assistant.Prelude.Results.{Result, ok, err}
use developer_assistant.GithubWorkflow.Credentials.{
  Refusal, check_for_token_in_remote, variable, from_environment, after_remote, load_credential,
}
use developer_assistant.GithubWorkflow.Commands.{
  GitCommand, has_blocked_phrase, validate_branch_name, and_then, build_merge_command,
  metacharacters,
}

-- A remote that is given has passed the check.
abbrev pub RemotePasses : Unicode → Option Text → Type 0
RemotePasses u none = Unit
RemotePasses u (some url) = check_for_token_in_remote u url ≡ ok tt

from_variable :
    (u : Unicode) (environ : Dict Text) (env_var : String) (token : Text)
    → from_environment u environ env_var ≡ ok token
    → (token ≡ variable u environ env_var) × (truthy token ≡ true)
unfolding from_environment
from_variable u environ env_var token h = ground arith

after_pass :
    (r : Result Refusal Unit) (x : Result Refusal Text) (token : Text)
    → after_remote r x ≡ ok token
    → (r ≡ ok tt) × (x ≡ ok token)
unfolding after_remote
after_pass (err e) x token h = cc
after_pass (ok tt) x token h = (refl, h)

-- A credential that is loaded is the value of the named variable, without the spaces around it and
-- not empty; there is no credentials file then, and a remote that is given holds no token.
pub loaded_from_variable :
    (u : Unicode) (credentials_exist : Bool) (remote_url : Option Text) (environ : Dict Text)
    (env_var : String) (token : Text)
    → load_credential u credentials_exist remote_url environ env_var ≡ ok token
    → (credentials_exist ≡ false)
      × RemotePasses u remote_url
      × (token ≡ variable u environ env_var)
      × (truthy token ≡ true)
unfolding load_credential
loaded_from_variable u true remote environ env_var token h = cc
loaded_from_variable u false none environ env_var token h =
    let v = from_variable u environ env_var token h in (refl, tt, v.0, v.1)
loaded_from_variable u false (some url) environ env_var token h =
    let passed =
      after_pass (check_for_token_in_remote u url) (from_environment u environ env_var) token h in
    let v = from_variable u environ env_var token passed.1 in (refl, passed.0, v.0, v.1)

-- A merge command is given out only with the founder's acknowledgement, for a branch
-- in whose lower-cased text no blocked phrase is found and which has no shell metacharacter, and it
-- merges just this branch.
pub merge_is_acknowledged :
    (u : Unicode) (founder_acknowledgement : Bool) (branch cwd : Text) (cmd : GitCommand)
    → truthy branch ≡ true
    → build_merge_command u founder_acknowledgement branch cwd ≡ ok cmd
    → (founder_acknowledgement ≡ true)
      × (has_blocked_phrase u branch ≡ false)
      × (contains_any branch metacharacters ≡ false)
      × (cmd ≡ record { args = codes "merge" ∷ branch ∷ []; cwd = cwd })
unfolding build_merge_command validate_branch_name and_then
merge_is_acknowledged u acknowledged branch cwd cmd t h = ground arith
