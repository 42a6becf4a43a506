-- ===== src/RuntimeCheck/Host.antt =====
-- runtime_check.py: what the check asks the machine, and the constants.
use mathlib.Core.Option
use developer_assistant.Prelude.{
  String, Bool, true, false, not, ◌&&◌, Option, none, some, List, [], ◌∷◌, ◌++◌, if◌then◌else◌,
}
use developer_assistant.Prelude.Text.{ends_with, Text, Unicode, codes, starts_with, same_text}
use developer_assistant.Prelude.Dict.{Dict}
use developer_assistant.Prelude.Json.{Json, string, field_of, field_of_field}
use developer_assistant.RuntimeCheck.Config.{skills_from, system_prompt_from, toolsets_from}

-- What the query of `_schema_meta` gives: an error of the engine, no row, or the value.
pub data Schema : Type 0 where
  unreadable no_row : Schema
  version : Text → Schema

-- What reading a text gives: no such path, an error of opening or of decoding it, or its lines.
pub data Content : Type 0 where
  missing unopened : Content
  found : List Text → Content

-- `content` is that of a path, `link` is `none` where the path is no symbolic link. `manifest` is
-- `none` where reading or parsing fails, `sha256` where the path cannot be read. `tools` is
-- `model_tools.get_tool_definitions`, `none` where the import fails; a call of it that raises is
-- `none`.
pub record Host : Type 0 where
  pub unicode : Unicode
  pub exists : Text → Bool
  pub is_file : Text → Bool
  pub content : Text → Content
  pub link : Text → Option Text
  pub schema : Text → Schema
  pub manifest : Text → Option Json
  pub sha256 : Text → Option Text
  pub tools : Option (List Text → Option (List Json))

abbrev pub allowed_roles : List String
allowed_roles = "orchestrator" ∷ "planner" ∷ "architect" ∷ "executor" ∷ "reviewer" ∷ []

-- The built-in skills, and those of the plugins.
abbrev pub role_skills : Dict (List String × List String)
role_skills =
    (
      "orchestrator",
      (
        "telegram-gateway" ∷ "cronjob" ∷ "memory" ∷ [],
        "dev-assist-classifier" ∷ "dev-assist-progress-report" ∷ "dev-assist-escalation-surface"
            ∷ "dev-assist-work-queue-write" ∷ [],
      ),
    )
    ∷ (
      "planner",
      (
        "cronjob" ∷ "memory" ∷ [],
        "dev-assist-prd-writer" ∷ "dev-assist-questions-writer" ∷ "dev-assist-work-queue-poll" ∷ [],
      ),
    )
    ∷ (
      "architect",
      (
        "cronjob" ∷ "memory" ∷ [],
        "dev-assist-arch-writer" ∷ "dev-assist-adr-writer" ∷ "dev-assist-tickets-writer"
            ∷ "dev-assist-work-queue-poll" ∷ [],
      ),
    )
    ∷ (
      "executor",
      (
        "terminal" ∷ "cronjob" ∷ "memory" ∷ [],
        "dev-assist-executor-discipline" ∷ "dev-assist-write-zone-enforcer"
            ∷ "dev-assist-github-workflow" ∷ "dev-assist-work-queue-poll" ∷ [],
      ),
    )
    ∷ (
      "reviewer",
      (
        "terminal" ∷ "cronjob" ∷ "memory" ∷ [],
        "dev-assist-reviewer-rubric" ∷ "dev-assist-review-writer" ∷ "dev-assist-work-queue-poll"
            ∷ [],
      ),
    )
    ∷ []

pub data Invariant : Type 0 where
  role_env_unset role_env_invalid loaded_skills_mismatch operational_db_path_mismatch : Invariant
  schema_version_mismatch orchestrator_telegram_token_missing : Invariant
  non_orchestrator_telegram_skill_loaded delegate_task_callable skill_manage_callable : Invariant
  prompt_manifest_missing prompt_sha_mismatch : Invariant

-- The subclasses of RuntimeCheckError, and the class itself for a database that cannot be read.
-- `uncaught` is an error of another class, that of a file that cannot be read or of the tools.
pub data CheckError : Type 0 where
  role_value skills_mismatch operational_db_path schema_version telegram_token_missing : CheckError
  telegram_gateway_loaded delegate_task skill_manage manifest_missing sha_mismatch : CheckError
  database_unreadable uncaught : CheckError

-- os.path.join(a, b) for a relative b
unfoldable pub join_path : Text → Text → Text
join_path a b = if ends_with a (codes "/") then a ++ b else a ++ (codes "/" ++ b)

-- The lines of a file, none of a path that does not exist, or the error.
abbrev pub lines_of : Content → Option (List Text)
lines_of missing = some []
lines_of unopened = none
lines_of (found ls) = some ls

abbrev points : Option Text → Bool
points none = false
points (some t) = starts_with t (codes "/srv/devassist/state/operational.db")

-- definition.get("function").get("name") == tool_name
abbrev names : Text → Option Json → Bool
names tool (some (string s)) = same_text s tool
names tool _ = false

abbrev any_names : Text → List Json → Bool
any_names tool [] = false
any_names tool (d ∷ ds) =
    let rest = any_names tool ds in
    if names tool (field_of_field "name" (field_of "function" d)) then true else rest

abbrev gates : Text → Option (List Json) → Option Bool
gates tool none = none
gates tool (some definitions) = some (not (any_names tool definitions))

module _ (h : Host) where
  -- The readers of the configuration, `none` where it cannot be opened or decoded.
  unfoldable pub read_config_skills : Text → Option (List Text)
  read_config_skills p = Option.map (skills_from h.unicode false) (lines_of (h.content p))

  unfoldable pub read_system_prompt_path : Text → Option Text
  read_system_prompt_path p =
      Option.map (system_prompt_from h.unicode false) (lines_of (h.content p))

  unfoldable pub parse_disabled_toolsets : Text → Option (List Text)
  parse_disabled_toolsets p =
      Option.map (toolsets_from h.unicode false false) (lines_of (h.content p))

  unfoldable pub check_operational_db_symlink : Text → Bool
  unfolding join_path
  check_operational_db_symlink home =
      points (h.link (join_path home (codes "operational.db")))
      && not (h.exists (join_path home (codes "state.db")))

  -- Whether `_attempt_hermes_filter_assertion` gives "gated", `none` where it raises.
  unfoldable pub is_gated : Text → Text → Option Bool
  unfolding parse_disabled_toolsets
  is_gated config tool = elim h.tools [
    | none ↦ some true
    | some definitions ↦ elim (parse_disabled_toolsets config) [
      | none ↦ none
      | some disabled ↦ gates tool (definitions disabled)
    ]
  ]
