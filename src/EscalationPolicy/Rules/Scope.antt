-- ===== src/EscalationPolicy/Rules/Scope.antt =====
-- rules.py: the rules on plugins, on the scope of the project and on its concept.
use developer_assistant.Prelude.{
  String, not, ◌&&◌, ◌||◌, List, [], ◌∷◌, one_of, str_eq, ltb, length,
}
use developer_assistant.Prelude.Text.{
  Text, codes, truthy, or_text, contains, contains_any, text_in, same_text, lower,
}
use developer_assistant.EscalationPolicy.Action.{Args, Rule, arg, hit, re_search}
use developer_assistant.EscalationPolicy.Rules.Services.{exposes}

abbrev shell_or_tool : List String
shell_or_tool = "shell_command" ∷ "tool_call" ∷ []

abbrev any_writer : List String
any_writer = "file_write" ∷ "shell_command" ∷ "tool_call" ∷ []

abbrev command_or_content : Args → Text
command_or_content a = or_text (arg a "command") (arg a "content")

abbrev content_or_command : Args → Text
content_or_command a = or_text (arg a "content") (arg a "command")

unfoldable pub plugin_install_unallowed : Rule
plugin_install_unallowed u kind a =
    hit
      (one_of kind shell_or_tool
        && re_search u
            "(?i)(hermes\\s+plugin\\s+install|hermes\\s+skill\\s+install|pip\\s+install.*hermes)"
            (command_or_content a))
      "plugin:install_unallowed"

unfoldable pub plugin_enable_project_local : Rule
plugin_enable_project_local u kind a =
    let content = content_or_command a in
    let enabled =
      text_in (lower u (arg a "value")) (codes "true" ∷ codes "1" ∷ codes "yes" ∷ [])
      || contains (lower u content) (codes "true") in
    hit
      (one_of kind any_writer
        && contains content (codes "HERMES_ENABLE_PROJECT_PLUGINS")
        && enabled)
      "plugin:enable_project_local"

unfoldable pub plugin_enable_marketplace_autoinstall : Rule
plugin_enable_marketplace_autoinstall u kind a =
    hit
      (one_of kind any_writer
        && re_search u "(?i)(hub.*auto.?install|marketplace.*auto|auto.*install.*skill)"
            (content_or_command a))
      "plugin:enable_marketplace_autoinstall"

unfoldable pub plugin_agent_managed_skill_create : Rule
plugin_agent_managed_skill_create u kind a =
    let tool = or_text (arg a "tool") (arg a "tool_name") in
    let cmd = command_or_content a in
    hit
      (one_of kind ("tool_call" ∷ "shell_command" ∷ [])
        && (same_text tool (codes "skill_manage") || re_search u "(?i)skill_manage" cmd)
        && (text_in (arg a "action") (codes "create" ∷ codes "modify" ∷ [])
            || re_search u "(?i)(create|modify)" cmd))
      "plugin:agent_managed_skill_create"

abbrev prd_path : String
prd_path = "docs/prd/PRD-.*\\.md"

unfoldable pub scope_prd_status_to_approved : Rule
scope_prd_status_to_approved u kind a =
    let path = arg a "path" in
    hit
      (str_eq kind "file_write"
        && (truthy path && re_search u prd_path path)
        && contains (arg a "content") (codes "status: approved")
        && not (contains (arg a "old_content") (codes "status: approved")))
      "scope:prd_status_to_approved"

unfoldable pub scope_adr_status_to_approved : Rule
scope_adr_status_to_approved u kind a =
    let path = arg a "path" in
    hit
      (str_eq kind "file_write"
        && (truthy path && re_search u "docs/architecture/adr/ADR-.*\\.md" path)
        && re_search u "status:\\s*(approved|accepted)" (arg a "content")
        && not (re_search u "status:\\s*(approved|accepted)" (arg a "old_content")))
      "scope:adr_status_to_approved"

unfoldable pub scope_add_v01_commitment : Rule
scope_add_v01_commitment u kind a =
    let path = arg a "path" in
    let content = arg a "content" in
    let old_content = arg a "old_content" in
    hit
      (str_eq kind "file_write"
        && (truthy path && re_search u prd_path path)
        && (truthy content && truthy old_content && ltb (length old_content) (length content)))
      "scope:add_v01_commitment"

unfoldable pub concept_replace_target_user : Rule
concept_replace_target_user u kind a =
    let path = arg a "path" in
    hit
      (one_of kind ("file_write" ∷ [])
        && (truthy path && re_search u prd_path path)
        && re_search u "(§\\s*2|Vision)" (arg a "content"))
      "concept:replace_target_user"

unfoldable pub concept_replace_tech_stack : Rule
concept_replace_tech_stack u kind a =
    hit
      (one_of kind any_writer
        && contains_any (content_or_command a)
            (codes "replace_hermes" ∷ codes "swap_telegram" ∷ codes "remove_openclaw" ∷ []))
      "concept:replace_tech_stack"

abbrev runtime_words : List Text
runtime_words =
    codes "k8s"
    ∷ codes "kubernetes"
    ∷ codes "ecs"
    ∷ codes "lambda"
    ∷ codes "cloud_run"
    ∷ codes "fargate"
    ∷ codes "deploy_to_aws"
    ∷ codes "deploy_to_gcp"
    ∷ codes "deploy_to_azure"
    ∷ []

unfoldable pub concept_replace_runtime_target : Rule
concept_replace_runtime_target u kind a =
    hit (one_of kind any_writer && contains_any (content_or_command a) runtime_words)
      "concept:replace_runtime_target"

unfoldable pub concept_expose_private_endpoint : Rule
concept_expose_private_endpoint u kind a =
    hit (one_of kind shell_or_tool && exposes u a) "concept:expose_private_endpoint"
