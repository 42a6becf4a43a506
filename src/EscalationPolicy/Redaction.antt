-- ===== src/EscalationPolicy/Redaction.antt =====
-- redaction.py: what is taken out of an action's arguments before the rules and the store see them.
use developer_assistant.Prelude.{String, List, [], ◌∷◌, false, map}
use developer_assistant.Prelude.Text.{Text, Unicode, codes}
use developer_assistant.Regex.{compile, sub}
use developer_assistant.EscalationPolicy.Action.{Args}

-- REDACTION_PATTERNS, in the order of the dictionary.
abbrev redaction_patterns : List String
redaction_patterns =
    "(?i)^.*_TOKEN\\s*=\\s*(.+)$" ∷ "(?i)^.*_API_KEY\\s*=\\s*(.+)$" ∷ "(?i)^.*_SECRET\\s*=\\s*(.+)$"
    ∷ "(?i)^.*_PASSWORD\\s*=\\s*(.+)$" ∷ "sk-[A-Za-z0-9]{20,}" ∷ "ghp_[A-Za-z0-9]{36}"
    ∷ "[0-9]{8,10}:AA[A-Za-z0-9_-]{33}" ∷ "sk-or-[A-Za-z0-9\\-]{30,}"
    ∷ "sk-omni-[A-Za-z0-9\\-]{20,}" ∷ []

redact_by : Unicode → List String → Text → Text
redact_by u [] s = s
redact_by u (p ∷ ps) s = redact_by u ps (sub u (compile false false p) (codes "<REDACTED>") s)

unfoldable pub redact_string : Unicode → Text → Text
unfolding redact_by
redact_string u s = redact_by u redaction_patterns s

redact_texts : Unicode → List (String × Text) → List (String × Text)
unfolding redact_string
redact_texts u [] = []
redact_texts u ((k, v) ∷ m) = (k, redact_string u v) ∷ redact_texts u m

unfoldable pub redact_action_args : Unicode → Args → Args
unfolding redact_texts
redact_action_args u a = record a {
  texts = redact_texts u a.texts;
  allowed_files = map (redact_string u) a.allowed_files;
}
