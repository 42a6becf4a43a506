-- ===== src/EscalationPolicy/Rules/Order.antt =====
-- Which rule speaks for an action, and which actions no rule speaks of.
use developer_assistant.Prelude.{
  String, ◌≡◌, ◌↔◌, refl, none, some, List, [], ◌∷◌, ◌++◌, arith, All,
}
use developer_assistant.Prelude.Text.{Unicode}
use developer_assistant.EscalationPolicy.Action.{Args, Rule}
use developer_assistant.EscalationPolicy.Rules.{all_rules, first_hit, evaluate_rules}

module _ (u : Unicode) (kind : String) (a : Args) where
  first_hit-append :
      (before after : List Rule) (r : Rule) (id : String)
      → All (λ q. q u kind a ≡ none) before
      → r u kind a ≡ some id
      → first_hit (before ++ r ∷ after) u kind a ≡ some id
  unfolding first_hit
  first_hit-append [] after r id h e = rw e
  first_hit-append (q ∷ before) after r id h e = rw h.0 (first_hit-append before after r id h.1 e)

  -- The id that `evaluate_rules` gives is that of a rule of the list that matches while every rule
  -- before it in the list does not.
  pub evaluate_rules_first :
      (before after : List Rule) (r : Rule) (id : String)
      → all_rules ≡ before ++ r ∷ after
      → All (λ q. q u kind a ≡ none) before
      → r u kind a ≡ some id
      → evaluate_rules u kind a ≡ some id
  unfolding evaluate_rules
  evaluate_rules_first before after r id e h g = rw e (first_hit-append before after r id h g)

  All-of_none :
      (rules : List Rule) → first_hit rules u kind a ≡ none → All (λ q. q u kind a ≡ none) rules
  unfolding first_hit
  All-of_none [] h = tt
  All-of_none (q ∷ rules) h = (ground arith, All-of_none rules (ground arith))

  none_of_All :
      (rules : List Rule) → All (λ q. q u kind a ≡ none) rules → first_hit rules u kind a ≡ none
  unfolding first_hit
  none_of_All [] h = refl
  none_of_All (q ∷ rules) h = rw h.0 (none_of_All rules h.1)

  pub evaluate_rules-none :
      (evaluate_rules u kind a ≡ none) ↔ All (λ q. q u kind a ≡ none) all_rules
  unfolding evaluate_rules
  evaluate_rules-none = (All-of_none all_rules, none_of_All all_rules)
