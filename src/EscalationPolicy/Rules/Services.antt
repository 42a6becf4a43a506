-- ===== src/EscalationPolicy/Rules/Services.antt =====
-- rules.py: the rules on networks, paid services and deployments.
use developer_assistant.Prelude.{String, Bool, false, not, ◌&&◌, ◌||◌, List, [], ◌∷◌, one_of}
use developer_assistant.Prelude.Text.{
  Text, Unicode, codes, truthy, or_text, contains, text_in, lower,
}
use developer_assistant.EscalationPolicy.Action.{Args, Rule, arg, hit, re_search}

abbrev shell : List String
shell = "shell_command" ∷ []

abbrev shell_or_tool : List String
shell_or_tool = "shell_command" ∷ "tool_call" ∷ []

abbrev any_writer : List String
any_writer = "file_write" ∷ "shell_command" ∷ "tool_call" ∷ []

abbrev command_or_content : Args → Text
command_or_content a = or_text (arg a "command") (arg a "content")

abbrev content_or_command : Args → Text
content_or_command a = or_text (arg a "content") (arg a "command")

unfoldable pub net_open_inbound_port : Rule
net_open_inbound_port u kind a =
    let cmd = arg a "command" in
    hit
      (one_of kind shell
        && (re_search u
              "(?i)(ufw\\s+allow|firewall-cmd\\s+.*--add-port|iptables\\s+-A\\s+INPUT.*ACCEPT)" cmd
            || re_search u "ListenStream\\s*=\\s*\\d+" cmd))
      "net:open_inbound_port"

unfoldable pub net_webhook_mode_telegram : Rule
net_webhook_mode_telegram u kind a =
    hit
      (one_of kind any_writer
        && re_search u "(?i)setWebhook|telegram_webhook_url|telegram\\.update_mode.*webhook"
            (content_or_command a))
      "net:webhook_mode_telegram"

-- The two searches of `net_expose_endpoint` and `concept_expose_private_endpoint`.
abbrev pub exposes : Unicode → Args → Bool
exposes u a =
    re_search u "(?i)(ngrok|cloudflare\\s+tunnel|cf\\s+tunnel)" (command_or_content a)
    || re_search u "(?i)reverse.?proxy" (command_or_content a)

unfoldable pub net_expose_endpoint : Rule
net_expose_endpoint u kind a = hit (one_of kind shell_or_tool && exposes u a) "net:expose_endpoint"

-- _PAID_SERVICES
abbrev paid_services : List String
paid_services =
    "modal.com" ∷ "daytona" ∷ "e2b.dev" ∷ "vercel" ∷ "fly.io" ∷ "qdrant.cloud" ∷ "pinecone"
    ∷ "weaviate.cloud" ∷ "managed_redis" ∷ "managed_postgres" ∷ "letta_cloud" ∷ []

names_service : Unicode → Text → List String → Bool
names_service u s [] = false
names_service u s (svc ∷ rest) =
    contains (lower u s) (lower u (codes svc)) || names_service u s rest

unfoldable pub paid_new_recurring_service : Rule
unfolding names_service
paid_new_recurring_service u kind a =
    hit (one_of kind any_writer && names_service u (content_or_command a) paid_services)
      "paid:new_recurring_service"

-- _CATALOG_MODELS
abbrev pub catalog_models : List Text
catalog_models =
    codes "accounts/fireworks/models/minimax-m2p7"
    ∷ codes "accounts/fireworks/models/kimi-k2p6"
    ∷ codes "accounts/fireworks/models/qwen3p6-plus"
    ∷ codes "accounts/fireworks/models/deepseek-v4-pro"
    ∷ codes "accounts/fireworks/models/glm-5p1"
    ∷ []

-- _CATALOG_MODEL_SLUGS
abbrev pub catalog_model_slugs : List Text
catalog_model_slugs =
    codes "minimax-m2p7"
    ∷ codes "kimi-k2p6"
    ∷ codes "qwen3p6-plus"
    ∷ codes "deepseek-v4-pro"
    ∷ codes "glm-5p1"
    ∷ []

unfoldable pub paid_llm_provider_outside_catalog : Rule
paid_llm_provider_outside_catalog u kind a =
    let model = arg a "model" in
    hit
      (one_of kind ("tool_call" ∷ "shell_command" ∷ [])
        && truthy model
        && not (text_in model catalog_models)
        && not (text_in model catalog_model_slugs))
      "paid:llm_provider_outside_catalog"

unfoldable pub paid_cloud_resource_provision : Rule
paid_cloud_resource_provision u kind a =
    hit
      (one_of kind shell_or_tool
        && re_search u
            "(?i)(aws\\s+ec2|gcloud\\s+compute|aws\\s+lambda|az\\s+vm|terraform\\s+apply)"
            (command_or_content a))
      "paid:cloud_resource_provision"

unfoldable pub deploy_start_units_unprompted : Rule
deploy_start_units_unprompted u kind a =
    hit (one_of kind shell && re_search u "systemctl\\s+start\\s+devassist" (arg a "command"))
      "deploy:start_units_unprompted"

unfoldable pub deploy_upgrade_activate_unprompted : Rule
deploy_upgrade_activate_unprompted u kind a =
    hit (one_of kind shell && re_search u "upgrade-self\\.sh\\s+.*--activate" (arg a "command"))
      "deploy:upgrade_activate_unprompted"

unfoldable pub deploy_generated_project_live_run : Rule
deploy_generated_project_live_run u kind a =
    hit
      (one_of kind shell_or_tool
        && re_search u "(?i)(live.?run|deploy.*live|production.*run|prod.*deploy)"
            (command_or_content a))
      "deploy:generated_project_live_run"

unfoldable pub deploy_merge_pr : Rule
deploy_merge_pr u kind a =
    let cmd = or_text (command_or_content a) (arg a "action") in
    hit
      (one_of kind shell_or_tool
        && re_search u "(?i)(merge.*PR|gh\\s+pr\\s+merge|pull.*request.*merge)" cmd)
      "deploy:merge_pr"
