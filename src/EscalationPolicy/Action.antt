-- ===== src/EscalationPolicy/Action.antt =====
-- The action that an agent is about to take: the arguments of a tool call as the rules of
-- src/developer_assistant/hermes_plugins/dev_assist_escalation_policy read them. The values that
-- they read are texts, but for the list `allowed_files` and the flag `_llm_call`.
use developer_assistant.Prelude.{
  String, Bool, true, false, Option, none, some, List, [], ◌∷◌, if◌then◌else◌, str_eq, ltb, ◌==◌,
}
use developer_assistant.Prelude.Text.{Text, Unicode}
use developer_assistant.Regex.{compile, search_text, match_start}

pub record Args : Type 0 where
  pub texts : List (String × Text)
  pub allowed_files : List Text
  pub llm_call : Bool

lookup : String → List (String × Text) → Text
lookup k [] = []
lookup k ((j, v) ∷ m) = if str_eq j k then v else lookup k m

-- action_args.get(key, "")
unfoldable pub arg : Args → String → Text
unfolding lookup
arg a key = lookup key a.texts

-- A rule gives its id if it matches the kind of an action and its arguments.
abbrev pub Rule : Type 0
Rule = Unicode → String → Args → Option String

abbrev pub hit : Bool → String → Option String
hit b id = if b then some id else none

-- re.search(source, text)
unfoldable pub re_search : Unicode → String → Text → Bool
re_search u source s = search_text u (compile false false source) s

-- re.match(source, text)
unfoldable pub re_match : Unicode → String → Text → Bool
re_match u source s = match_start u (compile false false source) s

-- str < str
unfoldable pub text_lt : Text → Text → Bool
text_lt [] [] = false
text_lt [] (c ∷ t) = true
text_lt (a ∷ s) [] = false
text_lt (a ∷ s) (c ∷ t) = let rest = text_lt s t in if a == c then rest else ltb a c
