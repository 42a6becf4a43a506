-- ===== src/Regex/Samples.antt =====
-- Patterns of the program on small texts.
use developer_assistant.Prelude.{true, false, [], ◌∷◌, ◌≡◌, refl}
use developer_assistant.Prelude.Text.{Unicode, codes}
use developer_assistant.Regex.{compile, search_text}

-- No code point from 128 on is a word, a digit or a space, and none has another case.
abbrev pub ascii_only : Unicode
ascii_only = record {
  word = λ c. false;
  digit = λ c. false;
  space = λ c. false;
  lower = λ c. c ∷ [];
  fold = λ c. c;
}

force_push :
    search_text ascii_only
      (compile false false "git\\s+push\\s+.*(--force\\b|-f\\b)")
      (codes "git push origin -f")
    ≡ true
unfolding search_text compile codes
force_push = refl

forced_word :
    search_text ascii_only
      (compile false false "git\\s+push\\s+.*(--force\\b|-f\\b)")
      (codes "git push --forced")
    ≡ false
unfolding search_text compile codes
forced_word = refl

drop_table :
    search_text ascii_only (compile false false "(?i)DROP\\s+TABLE") (codes "x; drop  Table y")
    ≡ true
unfolding search_text compile codes
drop_table = refl

token_of_36 :
    search_text ascii_only
      (compile false false "ghp_[A-Za-z0-9]{4}|[0-9]{2,3}:AA[A-Za-z0-9_-]{3}")
      (codes "x 123:AA-_b")
    ≡ true
unfolding search_text compile codes
token_of_36 = refl

approved_line :
    search_text ascii_only
      (compile false true "^status:\\s*approved\\s*$")
      (codes "id: 1\nstatus: approved\nx")
    ≡ true
unfolding search_text compile codes
approved_line = refl
