-- ===== src/EscalationPolicy/Classifier.antt =====
-- concept_classifier.py: `classify_concept_deviation` over the rules of the concept anchor. The
-- anchor is read from a YAML file; whether a rule's specification matches an action is asked of the
-- rule, and `none` is an exception of that test.
use Prim.Native.String.{◌++◌ as text_append}
use developer_assistant.Prelude.{
  String, Bool, true, false, Option, none, some, List, [], ◌∷◌, if◌then◌else◌, str_eq,
}
use developer_assistant.Prelude.Text.{Unicode}
use developer_assistant.EscalationPolicy.Action.{Args}
use developer_assistant.EscalationPolicy.Rules.{evaluate_rules}

pub record DeviationRule : Type 0 where
  -- `rule['id']` raises where there is none
  pub id : Option String
  pub verdict : String
  pub matches : String → Args → Option Bool

named : Option String → Option String
named none = some "concept_deviation:classifier_error"
named (some id) = some (text_append "concept_deviation:" id)

judge : Unicode → String → Args → DeviationRule → Option String
unfolding named
judge u kind a r =
    if str_eq r.verdict "ESCALATE"
    then named r.id
    else if str_eq r.verdict "PROCEED_OR_RULE_4_DECIDES"
    then evaluate_rules u kind a
    else none

classify_by : Unicode → String → Args → List DeviationRule → Option String
unfolding judge
classify_by u kind a [] = some "concept_deviation:classifier_safety_default"
classify_by u kind a (r ∷ rs) = elim (r.matches kind a) [
  | none ↦ some "concept_deviation:classifier_error"
  | some false ↦ classify_by u kind a rs
  | some true ↦ judge u kind a r
]

-- The anchor is `none` while no concept file could be loaded.
unfoldable pub classify_concept_deviation :
    Unicode → Option (List DeviationRule) → String → Args → Option String
unfolding classify_by
classify_concept_deviation u none kind a = some "concept:anchor_unavailable"
classify_concept_deviation u (some rules) kind a = classify_by u kind a rules
