-- ===== src/Regex/Syntax.antt =====
-- Patterns as they are compiled.
use developer_assistant.Prelude.{ℕ, Bool, List}

pub data Regex : Type 0 where
  char : ℕ → Regex
  ranges : List (ℕ × ℕ) → Regex
  any space digit word bound start finish empty : Regex
  seq alt : Regex → Regex → Regex
  star : Regex → Regex

-- `ignore_case` is `re.IGNORECASE` or a leading `(?i)`.
pub record Pattern : Type 0 where
  pub ignore_case : Bool
  pub multiline : Bool
  pub body : Regex
