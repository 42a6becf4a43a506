-- ===== src/EscalationPolicy/Plugin/Decisions.antt =====
-- When plugin.py lets a tool call pass, and what a block leaves in the store.
use developer_assistant.Prelude.{
  ℕ, String, ◌≡◌, ◌↔◌, ◌⊎◌, refl, true, false, ◌||◌, Option, none, some, [], ◌∷◌, arith, Bool-cases,
  inl, inr, if◌then◌else◌, one_of,
}
use developer_assistant.Prelude.Text.{Unicode}
use developer_assistant.Escalations.{EscalationTable}
use developer_assistant.EscalationPolicy.Action.{Args}
use developer_assistant.EscalationPolicy.Redaction.{redact_action_args}
use developer_assistant.EscalationPolicy.Rules.{
  evaluate_rules, all_rules, paid_llm_provider_outside_catalog,
}
use developer_assistant.EscalationPolicy.Rules.Order.{evaluate_rules-none}
use developer_assistant.EscalationPolicy.Classifier.{classify_concept_deviation}
use developer_assistant.EscalationPolicy.Plugin.{
  Runtime, raised, returned, Engine, allow, blocked, is_read_only, is_within_catalog, block,
  after_classifier, after_catalog, outside_catalog, after_rules, pre_tool_call,
}

-- The engine of rules.py on arguments of the modelled types, which raises nothing.
unfoldable pub rule_engine : Engine
rule_engine u tool a = returned (evaluate_rules u tool a)

-- The second question to the catalog rule is answered by the first.
paid_is_a_rule :
    (u : Unicode) (tool : String) (a : Args)
    → evaluate_rules u tool a ≡ none
    → paid_llm_provider_outside_catalog u tool a ≡ none
unfolding all_rules
paid_is_a_rule u tool a h = ground (arith, (evaluate_rules-none u tool a).0 h)

outside_is_none :
    (rt : Runtime) (tool : String) (a r : Args)
    → evaluate_rules rt.unicode tool r ≡ none
    → outside_catalog rt tool a r ≡ none
unfolding outside_catalog
outside_is_none rt tool a r h = elim (Bool-cases (one_of tool ("tool_call" ∷ []) || a.llm_call)) [
  | inl e ↦ rw e (paid_is_a_rule rt.unicode tool r h)
  | inr e ↦ rw e refl
]

-- What lets a call pass.
abbrev pub Passes : Runtime → String → Args → Type 0
Passes rt tool a =
    (is_read_only rt tool a ≡ true)
    ⊎ ((evaluate_rules rt.unicode tool (redact_action_args rt.unicode a) ≡ none)
        × ((is_within_catalog a ≡ true)
            ⊎ (classify_concept_deviation rt.unicode rt.anchor tool
                  (redact_action_args rt.unicode a)
                ≡ none)))

module _ (rt : Runtime) (work_item : Option ℕ) (tool : String) (a : Args)
    (t : EscalationTable) where
  after_none :
      (r : Args)
      → evaluate_rules rt.unicode tool r ≡ none
      → (after_rules rt work_item tool a r (returned none) t).1 ≡ (
          if is_within_catalog a
          then allow
          else (after_classifier rt work_item
              (rt.describe tool r)
              (classify_concept_deviation rt.unicode rt.anchor tool r)
              t).1)
  unfolding after_rules after_catalog
  after_none r h = elim (Bool-cases (is_within_catalog a)) [
    | inl e ↦ rw e refl
    | inr e ↦ rw (e, outside_is_none rt tool a r h) refl
  ]

  allowed_by_classifier :
      (action : String) (c : Option String)
      → ((after_classifier rt work_item action c t).1 ≡ allow) ↔ (c ≡ none)
  unfolding after_classifier block
  allowed_by_classifier action none = (λ h. refl, λ h. refl)
  allowed_by_classifier action (some c) = (λ h. cc, λ h. cc)

  allowed_by_rules :
      (r : Args) (o : Option String)
      → evaluate_rules rt.unicode tool r ≡ o
      → ((after_rules rt work_item tool a r (returned o) t).1 ≡ allow) ↔ (
          (o ≡ none)
          × ((is_within_catalog a ≡ true)
              ⊎ (classify_concept_deviation rt.unicode rt.anchor tool r ≡ none)))
  unfolding after_rules block
  allowed_by_rules r (some id) e = (λ h. cc, λ h. cc)
  allowed_by_rules r none e = rw (after_none r e) elim (Bool-cases (is_within_catalog a)) [
    | inl g ↦ rw g (λ h. (refl, inl refl), λ h. refl)
    | inr g ↦ rw g (
      λ h. (refl, inr ((allowed_by_classifier (rt.describe tool r) _).0 h)),
      λ h. (allowed_by_classifier (rt.describe tool r) _).1 (elim h.1 [ inl f ↦ cc | inr f ↦ f ]),
    )
  ]

  -- With the engine of rules.py a call is allowed exactly if its tool is read-only, or no rule
  -- matches its redacted arguments and its model is in the catalog or the classifier objects to
  -- nothing.
  pub allow_iff : ((pre_tool_call rule_engine rt work_item tool a t).1 ≡ allow) ↔ Passes rt tool a
  unfolding pre_tool_call rule_engine
  allow_iff = elim (Bool-cases (is_read_only rt tool a)) [
    | inl e ↦ (λ h. inl e, λ h. rw e refl)
    | inr e ↦ rw e (
      λ h. inr ((allowed_by_rules (redact_action_args rt.unicode a) _ refl).0 h),
      λ h.
          (allowed_by_rules (redact_action_args rt.unicode a) _ refl).1
            (elim h [ inl f ↦ cc | inr f ↦ f ]),
    )
  ]

  -- When the rule engine raises, a call that is not read-only is blocked as
  -- `rule_engine_unavailable`, whatever the arguments, the model and the store.
  pub raised_blocks :
      (engine : Engine)
      → is_read_only rt tool a ≡ false
      → engine rt.unicode tool (redact_action_args rt.unicode a) ≡ raised
      → (pre_tool_call engine rt work_item tool a t).1 ≡ blocked "rule_engine_unavailable"
  unfolding pre_tool_call after_rules block
  raised_blocks engine e f = rw (e, f) refl
