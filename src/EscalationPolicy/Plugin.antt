-- ===== src/EscalationPolicy/Plugin.antt =====
-- plugin.py: the decision before each tool call, and the escalation that a block leaves behind. The
-- advisory narrative is not modelled: the row that is written does not hold it.
pub mod Decisions
pub mod Recording
mod Samples
use Prim.Native.String.{◌++◌ as text_append}
use developer_assistant.Prelude.{
  ℕ, String, Bool, true, false, ◌&&◌, ◌||◌, Option, none, some, List, [], ◌∷◌, ◌++◌, if◌then◌else◌,
  str_eq, one_of,
}
use developer_assistant.Prelude.Text.{Text, Unicode, codes, contains, contains_any, text_in}
use developer_assistant.Escalations.{EscalationTable, NewEscalation, write_escalation}
use developer_assistant.EscalationPolicy.Action.{Args, Rule, arg}
use developer_assistant.EscalationPolicy.Redaction.{redact_action_args}
use developer_assistant.EscalationPolicy.Rules.{catalog_models, paid_llm_provider_outside_catalog}
use developer_assistant.EscalationPolicy.Classifier.{DeviationRule, classify_concept_deviation}

-- `role` is `_get_role()`, `opens` whether a connection is handed in or can be opened, and `describe`
-- the text `f"{tool_name}: {redacted_args}"`. On arguments of the modelled types the classifier
-- catches what it raises, so the branch of `pre_tool_call` for an exception of it is never taken.
pub record Runtime : Type 0 where
  pub unicode : Unicode
  pub role : String
  pub now : ℕ
  pub opens : Bool
  pub describe : String → Args → String
  pub anchor : Option (List DeviationRule)

-- What a call of the rule engine comes to.
pub data Outcome : Type 0 where
  raised : Outcome
  returned : Option String → Outcome

abbrev pub Engine : Type 0
Engine = Unicode → String → Args → Outcome

pub data Decision : Type 0 where
  allow : Decision
  blocked : String → Decision

unfoldable pub is_read_only : Runtime → String → Args → Bool
is_read_only rt tool a =
    one_of tool ("read_file" ∷ "list_files" ∷ "session_search" ∷ "search_files" ∷ "grep" ∷ [])
    || (one_of tool ("memory_add" ∷ "memory_replace" ∷ "memory_remove" ∷ [])
        && contains (arg a "path") (codes "runtimes/" ++ (codes rt.role ++ codes "/")))

unfoldable pub is_within_catalog : Args → Bool
is_within_catalog a = text_in (arg a "model") catalog_models

unfoldable pub urgency_of : String → String
urgency_of trigger =
    if contains_any (codes trigger)
      (codes "force_push" ∷ codes "drop_table" ∷ codes "secret:" ∷ codes "expose" ∷ [])
    then "high"
    else "medium"

unfoldable pub escalation_of : Runtime → Option ℕ → String → String → String → NewEscalation
unfolding urgency_of
escalation_of rt work_item trigger context action = record {
  originating_runtime = rt.role;
  originating_work_item_id = work_item;
  trigger_kind = trigger;
  context = context;
  proposed_action = action;
  options_json = "[\"approve\", \"deny\"]";
  recommended_default = "deny";
  impact = trigger;
  urgency = urgency_of trigger;
  durable_artifact_target = "docs/questions/";
}

-- `_write_escalation_row` under `try … except Exception: pass`, and the decision to block.
unfoldable pub block :
    Runtime → Option ℕ → String → String → String → EscalationTable → EscalationTable × Decision
unfolding escalation_of
block rt work_item trigger context action t = (
  if rt.opens
      then (write_escalation rt.now (escalation_of rt work_item trigger context action) t).0
      else t,
  blocked trigger,
)

abbrev deterministic : String → String
deterministic id = text_append "deterministic_rule:" id

unfoldable pub after_classifier :
    Runtime → Option ℕ → String → Option String → EscalationTable → EscalationTable × Decision
unfolding block
after_classifier rt work_item action none t = (t, allow)
after_classifier rt work_item action (some trigger) t =
    block rt work_item trigger (text_append "Concept deviation: " trigger) action t

unfoldable pub after_catalog :
    Runtime
    → Option ℕ
    → String
    → Args
    → Option String
    → EscalationTable
    → EscalationTable × Decision
unfolding after_classifier
after_catalog rt work_item tool redacted (some id) t =
    block rt work_item (deterministic id) "LLM provider outside catalog" (rt.describe tool redacted)
      t
after_catalog rt work_item tool redacted none t =
    after_classifier rt work_item (rt.describe tool redacted)
      (classify_concept_deviation rt.unicode rt.anchor tool redacted) t

-- `paid_llm_provider_outside_catalog` is asked again for a call of a model.
unfoldable pub outside_catalog : Runtime → String → Args → Args → Option String
outside_catalog rt tool a redacted =
    if one_of tool ("tool_call" ∷ []) || a.llm_call
    then paid_llm_provider_outside_catalog rt.unicode tool redacted
    else none

unfoldable pub after_rules :
    Runtime
    → Option ℕ
    → String
    → Args
    → Args
    → Outcome
    → EscalationTable
    → EscalationTable × Decision
unfolding after_catalog block is_within_catalog outside_catalog
after_rules rt work_item tool a redacted raised t =
    block rt work_item "rule_engine_unavailable" "Rule engine raised an exception during evaluation"
      (rt.describe tool redacted) t
after_rules rt work_item tool a redacted (returned (some id)) t =
    block rt work_item (deterministic id) (text_append "Rule " (text_append id " matched"))
      (rt.describe tool redacted) t
after_rules rt work_item tool a redacted (returned none) t =
    if is_within_catalog a
    then (t, allow)
    else after_catalog rt work_item tool redacted (outside_catalog rt tool a redacted) t

unfoldable pub pre_tool_call :
    Engine → Runtime → Option ℕ → String → Args → EscalationTable → EscalationTable × Decision
unfolding is_read_only after_rules
pre_tool_call engine rt work_item tool a t =
    let redacted = redact_action_args rt.unicode a in
    if is_read_only rt tool a
    then (t, allow)
    else after_rules rt work_item tool a redacted (engine rt.unicode tool redacted) t
