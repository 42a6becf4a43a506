-- ===== src/Regex/Compile.antt =====
-- `re.compile` on the constructs that the program's patterns use: literals, `\s \d \w \b`, escaped
-- characters, `.`, `^`, `$`, classes of characters and ranges, groups, `|`, and the quantifiers
-- `* + ? {n} {n,} {n,m}`.
use developer_assistant.Prelude.{
  ℕ, zero, suc, ◌+◌, ◌*◌, ◌-◌, String, Bool, true, false, Option, none, some, List, [], ◌∷◌, ◌==◌,
  if◌then◌else◌,
}
use developer_assistant.Prelude.Text.{Text, codes, starts_with}
use developer_assistant.Regex.Syntax.{
  Regex, char, ranges, any, space, digit, word, bound, start, finish, empty, seq, alt, star,
  Pattern,
}

pub data Token : Type 0 where
  atom : Regex → Token
  -- the least number of repetitions, and the greatest if there is one
  repeat : ℕ → Option ℕ → Token
  open_group bar close_group : Token

-- What the reader has begun: `in_class` has the ranges so far and whether a range awaits its end;
-- `in_braces` has the least number and, after a comma, the greatest.
pub data Mode : Type 0 where
  normal escaped : Mode
  in_class : List (ℕ × ℕ) → Bool → Mode
  in_class_escaped : List (ℕ × ℕ) → Mode
  in_braces : ℕ → Option (Option ℕ) → Mode

escape : ℕ → Regex
escape c =
    if c == b's'
    then space
    else if c == b'd'
    then digit
    else if c == b'w'
    then word
    else if c == b'b'
    then bound
    else char c

plain : ℕ → Token
plain c =
    if c == b'.'
    then atom any
    else if c == b'^'
    then atom start
    else if c == b'$'
    then atom finish
    else if c == b'('
    then open_group
    else if c == b'|'
    then bar
    else if c == b')'
    then close_group
    else if c == b'*'
    then repeat 0 none
    else if c == b'+'
    then repeat 1 none
    else if c == b'?'
    then repeat 0 (some 1)
    else atom (char c)

-- The end of a range takes the place of its first character, read as a range of its own.
end_range : ℕ → List (ℕ × ℕ) → List (ℕ × ℕ)
end_range c [] = (c, c) ∷ []
end_range c ((lo, hi) ∷ rs) = (lo, c) ∷ rs

digit_value : ℕ → Option ℕ → ℕ
digit_value c none = c - 48
digit_value c (some n) = n * 10 + (c - 48)

in_braces_next : ℕ → ℕ → Option (Option ℕ) → Mode
unfolding digit_value
in_braces_next c lo none =
    if c == b',' then in_braces lo (some none) else in_braces (digit_value c (some lo)) none
in_braces_next c lo (some hi) = in_braces lo (some (some (digit_value c hi)))

braces : ℕ → Option (Option ℕ) → Token
braces lo none = repeat lo (some lo)
braces lo (some hi) = repeat lo hi

-- What a character ends, if anything, and how the reader goes on.
read : Mode → ℕ → Option Token × Mode
unfolding escape plain end_range in_braces_next braces
read normal c =
    if c == 92
    then (none, escaped)
    else if c == b'['
    then (none, in_class [] false)
    else if c == b'{'
    then (none, in_braces 0 none)
    else (some (plain c), normal)
read escaped c = (some (atom (escape c)), normal)
read (in_class rs true) c =
    if c == b']'
    then (some (atom (ranges ((b'-', b'-') ∷ rs))), normal)
    else (none, in_class (end_range c rs) false)
read (in_class rs false) c =
    if c == b']'
    then (some (atom (ranges rs)), normal)
    else if c == 92
    then (none, in_class_escaped rs)
    else if c == b'-'
    then (none, in_class rs true)
    else (none, in_class ((c, c) ∷ rs) false)
read (in_class_escaped rs) c = (none, in_class ((c, c) ∷ rs) false)
read (in_braces lo hi) c =
    if c == b'}' then (some (braces lo hi), normal) else (none, in_braces_next c lo hi)

emit : Option Token → List Token → List Token
emit none ts = ts
emit (some t) ts = t ∷ ts

tokens : Mode → Text → List Token
unfolding read emit
tokens m [] = []
tokens m (c ∷ cs) = emit (read m c).0 (tokens (read m c).1 cs)

times : ℕ → Regex → Regex
times zero r = empty
times (suc n) r = seq r (times n r)

-- At most `n` times, as often as possible first.
up_to : ℕ → Regex → Regex
up_to zero r = empty
up_to (suc n) r = alt (seq r (up_to n r)) empty

quantify : ℕ → Option ℕ → Regex → Regex
unfolding times up_to
quantify lo none r = seq (times lo r) (star r)
quantify lo (some hi) r = seq (times lo r) (up_to (hi - lo) r)

-- The branches that are read of a group, the latest first, and the parts of its open branch, the
-- latest first.
pub record Group : Type 0 where
  pub branches : List Regex
  pub parts : List Regex

abbrev new_group : Group
new_group = record { branches = []; parts = [] }

chain : Regex → List Regex → Regex
chain r [] = r
chain r (x ∷ xs) = chain (seq x r) xs

choose : Regex → List Regex → Regex
choose r [] = r
choose r (x ∷ xs) = choose (alt x r) xs

close : Group → Regex
unfolding chain choose
close g = choose (chain empty g.parts) g.branches

add : Regex → Group → Group
add r g = record g { parts = r ∷ g.parts }

requantify : ℕ → Option ℕ → List Regex → List Regex
unfolding quantify
requantify lo hi [] = []
requantify lo hi (r ∷ rs) = quantify lo hi r ∷ rs

group : Group → List Group → List Token → Regex
unfolding close add requantify
group g outer [] = close g
group g outer (atom r ∷ ts) = group (add r g) outer ts
group g outer (repeat lo hi ∷ ts) = group (record g { parts = requantify lo hi g.parts }) outer ts
group g outer (open_group ∷ ts) = group new_group (g ∷ outer) ts
group g outer (bar ∷ ts) =
    group (record { branches = chain empty g.parts ∷ g.branches; parts = [] }) outer ts
group g [] (close_group ∷ ts) = group g [] ts
group g (h ∷ outer) (close_group ∷ ts) = group (add (close g) h) outer ts

drop_flag : Text → Text
drop_flag (a ∷ b ∷ c ∷ d ∷ cs) = cs
drop_flag cs = cs

-- A leading `(?i)` sets the flag.
unfoldable pub compile : Bool → Bool → String → Pattern
unfolding tokens group drop_flag starts_with codes
compile ignore_case multiline source =
    let text = codes source in
    let flag = starts_with text (codes "(?i)") in
    record {
      ignore_case = if flag then true else ignore_case;
      multiline = multiline;
      body = group new_group [] (tokens normal (if flag then drop_flag text else text));
    }
