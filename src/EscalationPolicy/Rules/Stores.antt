-- ===== src/EscalationPolicy/Rules/Stores.antt =====
-- rules.py: the rules on the operational store and on secrets.
use developer_assistant.Prelude.{String, ◌&&◌, ◌||◌, List, [], ◌∷◌, one_of, str_eq}
use developer_assistant.Prelude.Text.{Text, codes, truthy, or_text, contains, lower, strip}
use developer_assistant.EscalationPolicy.Action.{Args, Rule, arg, hit, re_search, re_match, text_lt}

abbrev shell_or_tool : List String
shell_or_tool = "shell_command" ∷ "tool_call" ∷ []

abbrev any_writer : List String
any_writer = "file_write" ∷ "shell_command" ∷ "tool_call" ∷ []

abbrev sql_of : Args → Text
sql_of a = or_text (or_text (arg a "command") (arg a "sql")) (arg a "content")

unfoldable pub state_drop_table : Rule
state_drop_table u kind a =
    hit (one_of kind shell_or_tool && re_search u "(?i)DROP\\s+TABLE" (sql_of a)) "state:drop_table"

unfoldable pub state_drop_database : Rule
state_drop_database u kind a =
    hit (one_of kind shell_or_tool && re_search u "(?i)DROP\\s+DATABASE" (sql_of a))
      "state:drop_database"

unfoldable pub state_truncate_or_delete_unbounded : Rule
state_truncate_or_delete_unbounded u kind a =
    let sql = sql_of a in
    hit
      (one_of kind shell_or_tool
        && (re_search u "(?i)TRUNCATE\\s" sql
            || re_search u "(?i)DELETE\\s+FROM\\s+\\w+\\s*;?\\s*$" (strip u sql)
            || re_search u "(?i)DELETE\\s+FROM\\s+\\w+\\s*$" (strip u sql)))
      "state:truncate_or_delete_unbounded"

unfoldable pub state_alter_table_drop_column : Rule
state_alter_table_drop_column u kind a =
    hit
      (one_of kind shell_or_tool && re_search u "(?i)ALTER\\s+TABLE\\s+.*DROP\\s+COLUMN" (sql_of a))
      "state:alter_table_drop_column"

unfoldable pub state_downgrade_schema : Rule
state_downgrade_schema u kind a =
    let content = or_text (or_text (arg a "command") (arg a "content")) (arg a "sql") in
    let target = arg a "target_version" in
    let current = arg a "current_version" in
    let downgrades =
      (contains (lower u content) (codes "downgrade")
        && contains (lower u content) (codes "schema"))
      || (truthy target && truthy current && text_lt target current) in
    hit (one_of kind ("shell_command" ∷ "tool_call" ∷ "file_write" ∷ []) && downgrades)
      "state:downgrade_schema"

abbrev secret_name : String
secret_name = "(?i).*(TOKEN|API_KEY|SECRET|PASSWORD)"

abbrev pub known_secret_value : String
known_secret_value =
    "(sk-[A-Za-z0-9]{20,}|ghp_[A-Za-z0-9]{36}|[0-9]{8,10}:AA[A-Za-z0-9_-]{33}|sk-or-[A-Za-z0-9\\-]{30,})"

unfoldable pub secret_rotate : Rule
secret_rotate u kind a =
    let path = arg a "path" in
    let content = or_text (arg a "content") (arg a "command") in
    let env_name = or_text (arg a "env_var") (arg a "variable_name") in
    let in_env_file =
      truthy path
      && (contains path (codes "SELF-DEPLOY.env") || contains path (codes ".env"))
      && re_search u secret_name content in
    hit
      (one_of kind any_writer
        && (in_env_file || (truthy env_name && re_match u secret_name env_name)))
      "secret:rotate"

unfoldable pub secret_revoke : Rule
secret_revoke u kind a =
    let cmd = or_text (or_text (arg a "command") (arg a "content")) (arg a "action") in
    hit
      (one_of kind shell_or_tool
        && re_search u "(?i)(revokeBotToken|delete-pat|revoke.*token|revoke.*key)" cmd)
      "secret:revoke"

unfoldable pub secret_write_to_repo : Rule
secret_write_to_repo u kind a =
    let content = arg a "content" in
    hit (str_eq kind "file_write" && truthy content && re_search u known_secret_value content)
      "secret:write_to_repo"

unfoldable pub secret_expose_in_log : Rule
secret_expose_in_log u kind a =
    let output = or_text (or_text (arg a "output") (arg a "content")) (arg a "command") in
    hit (one_of kind shell_or_tool && truthy output && re_search u known_secret_value output)
      "secret:expose_in_log"
