-- ===== src/EscalationPolicy/Rules.antt =====
-- rules.py: the list of all rules, and the first of them that matches.
mod Repository
mod Stores
mod Services
mod Scope
pub mod Order
unfoldable pub use Repository.*
unfoldable pub use Stores.*
unfoldable pub use Services.*
unfoldable pub use Scope.*
use developer_assistant.Prelude.{String, Option, none, some, List, [], ◌∷◌}
use developer_assistant.Prelude.Text.{Unicode}
use developer_assistant.EscalationPolicy.Action.{Args, Rule}

-- ALL_RULES
unfoldable pub all_rules : List Rule
all_rules =
    gov_write_outside_zone ∷ gov_delete_governance_artifact ∷ gov_overwrite_approved_artifact
    ∷ gov_rename_artifact ∷ git_force_push ∷ git_force_with_lease_main_master ∷ git_hard_reset
    ∷ git_branch_delete ∷ git_rebase_main_master ∷ git_no_verify_commit_or_push ∷ state_drop_table
    ∷ state_drop_database ∷ state_truncate_or_delete_unbounded ∷ state_alter_table_drop_column
    ∷ state_downgrade_schema ∷ secret_rotate ∷ secret_revoke ∷ secret_write_to_repo
    ∷ secret_expose_in_log ∷ net_open_inbound_port ∷ net_webhook_mode_telegram ∷ net_expose_endpoint
    ∷ paid_new_recurring_service ∷ paid_llm_provider_outside_catalog ∷ paid_cloud_resource_provision
    ∷ deploy_start_units_unprompted ∷ deploy_upgrade_activate_unprompted
    ∷ deploy_generated_project_live_run ∷ deploy_merge_pr ∷ plugin_install_unallowed
    ∷ plugin_enable_project_local ∷ plugin_enable_marketplace_autoinstall
    ∷ plugin_agent_managed_skill_create ∷ scope_prd_status_to_approved
    ∷ scope_adr_status_to_approved ∷ scope_add_v01_commitment ∷ concept_replace_target_user
    ∷ concept_replace_tech_stack ∷ concept_replace_runtime_target ∷ concept_expose_private_endpoint
    ∷ []

unfoldable pub first_hit : List Rule → Rule
first_hit [] u kind a = none
first_hit (r ∷ rs) u kind a = elim (r u kind a) [ some id ↦ some id | none ↦ first_hit rs u kind a ]

unfoldable pub evaluate_rules : Rule
evaluate_rules = first_hit all_rules
