-- ===== src/RuntimeCheck/Check.antt =====
-- runtime_check.py: the checks in their order, each with its marker on stderr and its error, and the
-- exit code.
use developer_assistant.Prelude.{
  ℕ, String, Bool, true, false, not, ◌&&◌, ◌||◌, Option, none, some, List, [], ◌∷◌, ◌++◌,
  if◌then◌else◌, one_of, map, non_empty, str_eq,
}
use developer_assistant.Prelude.Text.{Text, codes, same_text, text_in, truthy}
use developer_assistant.Prelude.Dict.{Dict, get}
use developer_assistant.Prelude.Json.{Json, string, field_of_field}
use developer_assistant.Prelude.Results.{Result, ok, err}
use developer_assistant.RuntimeCheck.Host.{
  unreadable, no_row, version, Host, allowed_roles, role_skills, Invariant, role_env_unset,
  role_env_invalid, loaded_skills_mismatch, operational_db_path_mismatch, schema_version_mismatch,
  orchestrator_telegram_token_missing, non_orchestrator_telegram_skill_loaded,
  delegate_task_callable, skill_manage_callable, prompt_manifest_missing, prompt_sha_mismatch,
  CheckError, role_value, skills_mismatch, operational_db_path, schema_version,
  telegram_token_missing, telegram_gateway_loaded, delegate_task, skill_manage, manifest_missing,
  sha_mismatch, database_unreadable, uncaught, join_path, read_config_skills,
  read_system_prompt_path, parse_disabled_toolsets, check_operational_db_symlink, is_gated,
}

-- The name on the marker.
unfoldable pub invariant_name : Invariant → String
invariant_name role_env_unset = "role_env_unset"
invariant_name role_env_invalid = "role_env_invalid"
invariant_name loaded_skills_mismatch = "loaded_skills_mismatch"
invariant_name operational_db_path_mismatch = "operational_db_path_mismatch"
invariant_name schema_version_mismatch = "schema_version_mismatch"
invariant_name orchestrator_telegram_token_missing = "orchestrator_telegram_token_missing"
invariant_name non_orchestrator_telegram_skill_loaded = "non_orchestrator_telegram_skill_loaded"
invariant_name delegate_task_callable = "delegate_task_callable"
invariant_name skill_manage_callable = "skill_manage_callable"
invariant_name prompt_manifest_missing = "prompt_manifest_missing"
invariant_name prompt_sha_mismatch = "prompt_sha_mismatch"

-- The role and the invariant of `_emit_marker`, if it was called, and the error that is raised.
pub record Abort : Type 0 where
  pub marker : Option (String × Invariant)
  pub error : CheckError

unfoldable pub emit_marker : String → Invariant → String × Invariant
emit_marker role i = (if one_of role allowed_roles then role else "", i)

unfoldable pub marker_line : String × Invariant → Text
unfolding invariant_name
marker_line (role, i) =
    codes "RUNTIME_CHECK_FAILED:"
    ++ (codes role ++ (codes ":" ++ (codes (invariant_name i) ++ codes "\n")))

unfoldable pub all_in : List Text → List Text → Bool
all_in [] skills = true
all_in (s ∷ ss) skills = text_in s skills && all_in ss skills

-- Equality of the sets.
unfoldable pub same_skills : List Text → List Text → Bool
unfolding all_in
same_skills a b = all_in a b && all_in b a

-- `_ROLE_SKILLS[role]`, whose keys are the allowed roles.
abbrev pub builtin_of : Option (List String × List String) → List Text
builtin_of none = []
builtin_of (some p) = map codes p.0

-- os.environ.get(name, "")
unfoldable pub env_text : String → Dict Text → Text
env_text name env = elim (get name env) [ none ↦ [] | some v ↦ v ]

-- json: the entry, if it is a non-empty string
abbrev pub sha_of : Option Json → Option Text
sha_of (some (string (c ∷ s))) = some (c ∷ s)
sha_of _ = none

module _ (h : Host) (role : String) where
  abbrev pub abort : Invariant → CheckError → Result Abort Unit
  abort i e = err (record { marker = some (emit_marker role i); error = e })

  -- A check that holds, or its marker and error.
  abbrev pub require : Bool → Invariant → CheckError → Result Abort Unit → Result Abort Unit
  require true i e rest = rest
  require false i e rest = abort i e

  -- A value that the rest needs, or the error of reading it, which has no marker.
  abbrev pub reading : {A : Type 0} → Option A → (A → Result Abort Unit) → Result Abort Unit
  reading none rest = err (record { marker = none; error = uncaught })
  reading (some a) rest = rest a

  -- A caller that is asked under a condition, and has to answer "gated".
  abbrev pub require_gated :
      Bool → Option Bool → Invariant → CheckError → Result Abort Unit → Result Abort Unit
  require_gated false gated i e rest = rest
  require_gated true gated i e rest = reading gated λ g. require g i e rest

  unfoldable pub check_schema : Text → Result Abort Unit → Result Abort Unit
  check_schema path rest =
      if h.exists path
      then elim (h.schema path) [
        | unreadable ↦ err (record { marker = none; error = database_unreadable })
        | no_row ↦ abort schema_version_mismatch schema_version
        | version v ↦ require (same_text v (codes "3")) schema_version_mismatch schema_version rest
      ]
      else rest

  unfoldable pub check_prompt : Text → Text → Result Abort Unit
  check_prompt config expected = reading (read_system_prompt_path h config) λ path.
      require (truthy path && h.is_file path) prompt_sha_mismatch sha_mismatch (
        reading (h.sha256 path)
          λ sha. require (same_text sha expected) prompt_sha_mismatch sha_mismatch (ok tt))

  -- The entry of the role in the manifest at the path.
  unfoldable pub expected_sha : Text → Option Text
  expected_sha manifest =
      sha_of (field_of_field role (field_of_field "prompts" (h.manifest manifest)))

  unfoldable pub check_manifest : Text → Text → Result Abort Unit
  unfolding check_prompt expected_sha
  check_manifest config manifest =
      if not (truthy manifest)
      then ok tt
      else require (h.is_file manifest) prompt_manifest_missing manifest_missing
          (elim (expected_sha manifest) [
            | none ↦ abort prompt_manifest_missing manifest_missing
            | some sha ↦ check_prompt config sha
          ])

  abbrev pub is_orchestrator : Bool
  is_orchestrator = str_eq role "orchestrator"

  -- The environment and the two callers are arguments, as they are of the source.
  -- The check of the tools and of the prompt.
  unfoldable pub check_tools :
      Text → Text → (Text → Option Bool) → (Text → Option Bool) → Result Abort Unit
  unfolding check_manifest
  check_tools config manifest delegate_gated skill_gated =
      require_gated (not is_orchestrator) (delegate_gated config) delegate_task_callable
        delegate_task
        (reading (parse_disabled_toolsets h config) λ disabled.
          require_gated (text_in (codes "skills") disabled) (skill_gated config)
            skill_manage_callable skill_manage (check_manifest config manifest))

  -- The environment and the two callers are arguments, as they are of the source.
  unfoldable pub check_runtime :
      Text
      → Text
      → Dict Text
      → Text
      → (Text → Option Bool)
      → (Text → Option Bool)
      → Result Abort Unit
  unfolding check_schema check_tools same_skills env_text
  check_runtime config operational_db env manifest delegate_gated skill_gated =
      let home = env_text "HERMES_HOME" env in
      let token = env_text "TELEGRAM_BOT_TOKEN" env in
      require (non_empty role) role_env_unset role_value (
        require (one_of role allowed_roles) role_env_invalid role_value (
          reading (read_config_skills h config) λ skills.
            require (is_orchestrator || not (text_in (codes "telegram-gateway") skills))
              non_orchestrator_telegram_skill_loaded telegram_gateway_loaded
              (require (same_skills skills (builtin_of (get role role_skills)))
                loaded_skills_mismatch skills_mismatch
                (require (not (truthy home) || check_operational_db_symlink h home)
                  operational_db_path_mismatch operational_db_path
                  (check_schema operational_db (
                    require
                      (not is_orchestrator
                        || (truthy token && not (same_text token (codes "test-token-placeholder"))))
                      orchestrator_telegram_token_missing telegram_token_missing
                      (check_tools config manifest delegate_gated skill_gated)))))))

abbrev pub default_manifest : Text
default_manifest = codes "/srv/devassist/state/prompt-manifest.json"

-- The errors of the class RuntimeCheckError.
abbrev pub is_caught : CheckError → Bool
is_caught uncaught = false
is_caught _ = true

-- The exit code, which an error that `_main_cli` does not catch does not give.
abbrev pub exit_code : Result Abort Unit → Option ℕ
exit_code (ok done) = some 0
exit_code (err a) = if is_caught a.error then some 78 else none

-- The file of HERMES_HOME, or the empty path.
unfoldable pub in_home : Text → String → Text
in_home home name = if truthy home then join_path home (codes name) else []

-- The check of `_main_cli` for a home.
abbrev pub check_home : Host → String → Dict Text → Text → Result Abort Unit
check_home h role env home =
    check_runtime h role (in_home home "config.yaml") (in_home home "operational.db") env
      default_manifest (λ c. is_gated h c (codes "delegate_task"))
      (λ c. is_gated h c (codes "skill_manage"))

-- The role is an argument: the value of HERMES_DEVASSIST_ROLE in the environment.
unfoldable pub main_cli : Host → String → Dict Text → Option ℕ
unfolding env_text
main_cli h role env = exit_code (check_home h role env (env_text "HERMES_HOME" env))
