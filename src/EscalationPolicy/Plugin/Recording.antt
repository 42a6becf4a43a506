-- ===== src/EscalationPolicy/Plugin/Recording.antt =====
-- What a blocked call leaves in the table of escalations.
use developer_assistant.Prelude.{
  ℕ, ◌+◌, String, ◌≡◌, ◌⊎◌, refl, ap, sym, ◌∙◌, Bool, true, false, Option, none, some, [], ◌∷◌,
  ◌++◌, Bool-cases, inl, inr, if◌then◌else◌, one_of,
}
use developer_assistant.Prelude.Text.{contains_any}
use developer_assistant.Escalations.{EscalationTable, write_escalation, checks_pass, new_row, roles}
use developer_assistant.EscalationPolicy.Action.{Args}
use developer_assistant.EscalationPolicy.Plugin.{
  Runtime, Outcome, raised, returned, Engine, Decision, allow, blocked, is_read_only,
  is_within_catalog, escalation_of, block, after_classifier, after_catalog, after_rules,
  pre_tool_call, urgency_of,
}

same_trigger : (g : String) {trigger : String} → blocked g ≡ blocked trigger → g ≡ trigger
same_trigger g h = cc

module _ (rt : Runtime) (work_item : Option ℕ) (tool : String) (a : Args)
    (t : EscalationTable) where
  -- A call either passes and leaves the table, or ends in `block`.
  AllowsOrBlocks : EscalationTable × Decision → Type 0
  AllowsOrBlocks x =
      (x ≡ (t, allow))
      ⊎ ((trigger : String) × (context : String) × (action : String) × (x
            ≡ block rt work_item trigger context action t))

  classifier-AllowsOrBlocks :
      (action : String) (c : Option String)
      → AllowsOrBlocks (after_classifier rt work_item action c t)
  unfolding AllowsOrBlocks after_classifier
  classifier-AllowsOrBlocks action none = inl refl
  classifier-AllowsOrBlocks action (some c) = inr (_, _, _, refl)

  catalog-AllowsOrBlocks :
      (r : Args) (o : Option String) → AllowsOrBlocks (after_catalog rt work_item tool r o t)
  unfolding AllowsOrBlocks after_catalog
  catalog-AllowsOrBlocks r (some id) = inr (_, _, _, refl)
  catalog-AllowsOrBlocks r none = classifier-AllowsOrBlocks _ _

  rules-AllowsOrBlocks :
      (r : Args) (o : Outcome) → AllowsOrBlocks (after_rules rt work_item tool a r o t)
  unfolding AllowsOrBlocks after_rules
  rules-AllowsOrBlocks r raised = inr (_, _, _, refl)
  rules-AllowsOrBlocks r (returned (some id)) = inr (_, _, _, refl)
  rules-AllowsOrBlocks r (returned none) = elim (Bool-cases (is_within_catalog a)) [
    | inl e ↦ rw e (inl refl)
    | inr e ↦ rw e (catalog-AllowsOrBlocks r _)
  ]

  pre_tool_call-AllowsOrBlocks :
      (engine : Engine) → AllowsOrBlocks (pre_tool_call engine rt work_item tool a t)
  unfolding AllowsOrBlocks pre_tool_call
  pre_tool_call-AllowsOrBlocks engine = elim (Bool-cases (is_read_only rt tool a)) [
    | inl e ↦ rw e (inl refl)
    | inr e ↦ rw e (rules-AllowsOrBlocks _ _)
  ]

  block_unrecorded :
      (trigger context action : String)
      → (rt.opens ≡ false) ⊎ (one_of rt.role roles ≡ false)
      → (block rt work_item trigger context action t).0 ≡ t
  unfolding block write_escalation checks_pass escalation_of
  block_unrecorded trigger context action (inl e) = rw e refl
  block_unrecorded trigger context action (inr e) = elim (Bool-cases rt.opens) [
    | inl f ↦ rw (f, e) refl
    | inr f ↦ rw f refl
  ]

  -- While the store does not open, or the role is none of the five that the table admits, no call
  -- leaves an escalation: the table stays as it is, whatever the decision.
  pub block_leaves_no_row :
      (engine : Engine)
      → (rt.opens ≡ false) ⊎ (one_of rt.role roles ≡ false)
      → (pre_tool_call engine rt work_item tool a t).0 ≡ t
  unfolding AllowsOrBlocks
  block_leaves_no_row engine h = elim (pre_tool_call-AllowsOrBlocks engine) [
    | inl e ↦ ap (λ x. x.0) e
    | inr (trigger, context, action, e) ↦
        ap (λ x. x.0) e ∙ block_unrecorded trigger context action h
  ]

  either_is_listed :
      (b : Bool) → one_of (if b then "high" else "medium") ("low" ∷ "medium" ∷ "high" ∷ []) ≡ true
  unfolding one_of
  either_is_listed true = refl
  either_is_listed false = refl

  block_records :
      (trigger context action : String)
      → rt.opens ≡ true
      → one_of rt.role roles ≡ true
      → work_item ≡ none
      → (block rt work_item trigger context action t).0 ≡ record t {
        rows =
            t.rows
            ++ new_row rt.now (t.last_id + 1) (escalation_of rt none trigger context action) ∷ [];
        last_id = t.last_id + 1;
      }
  unfolding block write_escalation checks_pass escalation_of urgency_of
  block_records trigger context action o e w =
      rw (w, o, e, either_is_listed (contains_any _ _)) refl

  -- When the store opens for one of the five roles and there is no originating work item, a blocked
  -- call adds one escalation: pending, of the role, with the decision's trigger, and denied by default.
  pub blocked_is_recorded :
      (engine : Engine) (trigger : String)
      → rt.opens ≡ true
      → one_of rt.role roles ≡ true
      → work_item ≡ none
      → (pre_tool_call engine rt work_item tool a t).1 ≡ blocked trigger
      → (context : String) × (action : String) × ((pre_tool_call engine rt work_item tool a t).0
          ≡ record t {
            rows =
                t.rows
                ++ new_row rt.now (t.last_id + 1) (escalation_of rt none trigger context action)
                  ∷ [];
            last_id = t.last_id + 1;
          })
  unfolding AllowsOrBlocks block
  blocked_is_recorded engine trigger o e w h = elim (pre_tool_call-AllowsOrBlocks engine) [
    | inl f ↦ cc
    | inr (other, context, action, f) ↦ (
      context,
      action,
      ap (λ x. x.0) f
          ∙ block_records other context action o e w
          ∙ ap
              (λ g. record t {
                rows =
                    t.rows
                    ++ new_row rt.now (t.last_id + 1) (escalation_of rt none g context action) ∷ [];
                last_id = t.last_id + 1;
              })
              (same_trigger other (sym (ap (λ x. x.1) f) ∙ h)),
    )
  ]
