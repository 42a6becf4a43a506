-- ===== src/Prelude/Text.antt =====
-- A text as the list of its code points, and Python's tests and case mappings on it. What
-- `unicodedata` says of the code points from 128 on is a parameter.
use Prim.Native.Char.{code}
use Prim.Native.String.{String}
use Prim.Native.Nat.{ℕ, ◌+◌}
use mathlib.Core.Bool.{Bool, true, false, ◌&&◌, ◌||◌}
use mathlib.Core.List.{List, [], ◌∷◌, ◌++◌}
use developer_assistant.Prelude.Tests.{leb, ltb, ◌==◌, if◌then◌else◌}

abbrev pub Text : Type 0
Text = List ℕ

unfoldable pub codes : String → Text
codes String.[] = []
codes (String.◌∷◌ c s) = code c ∷ codes s

-- The character database for the code points from 128 on: `lower` is the mapping of `str.lower`,
-- `fold` that of the case-insensitive comparison of `re`.
pub record Unicode : Type 0 where
  pub word : ℕ → Bool
  pub digit : ℕ → Bool
  pub space : ℕ → Bool
  pub lower : ℕ → Text
  pub fold : ℕ → ℕ

abbrev pub between : ℕ → ℕ → ℕ → Bool
between lo hi c = leb lo c && leb c hi

unfoldable pub is_space : Unicode → ℕ → Bool
is_space u c = if ltb c 128 then between 9 13 c || between 28 32 c else u.space c

unfoldable pub is_digit : Unicode → ℕ → Bool
is_digit u c = if ltb c 128 then between 48 57 c else u.digit c

unfoldable pub is_word : Unicode → ℕ → Bool
is_word u c =
    if ltb c 128
    then between 48 57 c || between 65 90 c || between 97 122 c || c == 95
    else u.word c

unfoldable pub fold_case : Unicode → ℕ → ℕ
fold_case u c = if ltb c 128 then (if between 65 90 c then c + 32 else c) else u.fold c

-- str.lower()
unfoldable pub lower : Unicode → Text → Text
lower u [] = []
lower u (c ∷ cs) =
    (if ltb c 128 then (if between 65 90 c then c + 32 else c) ∷ [] else u.lower c) ++ lower u cs

unfoldable pub same_text : Text → Text → Bool
same_text [] [] = true
same_text (a ∷ s) (b ∷ t) = a == b && same_text s t
same_text _ _ = false

-- s.startswith(t)
unfoldable pub starts_with : Text → Text → Bool
starts_with s [] = true
starts_with [] (c ∷ t) = false
starts_with (a ∷ s) (c ∷ t) = a == c && starts_with s t

-- s.endswith(t)
unfoldable pub ends_with : Text → Text → Bool
ends_with [] t = same_text [] t
ends_with (c ∷ s) t = let rest = ends_with s t in if same_text (c ∷ s) t then true else rest

-- t in s
unfoldable pub contains : Text → Text → Bool
unfolding starts_with
contains [] t = starts_with [] t
contains (a ∷ s) t = starts_with (a ∷ s) t || contains s t

-- s in texts
unfoldable pub text_in : Text → List Text → Bool
text_in s [] = false
text_in s (t ∷ ts) = same_text s t || text_in s ts

-- any(t in s for t in texts)
unfoldable pub contains_any : Text → List Text → Bool
contains_any s [] = false
contains_any s (t ∷ ts) = contains s t || contains_any s ts

-- The truth value of a `str`.
abbrev pub truthy : Text → Bool
truthy [] = false
truthy (c ∷ cs) = true

-- a or b
abbrev pub or_text : Text → Text → Text
or_text [] b = b
or_text (c ∷ cs) b = c ∷ cs

unfoldable pub drop_spaces : Unicode → Text → Text
drop_spaces u [] = []
drop_spaces u (c ∷ cs) = let rest = drop_spaces u cs in if is_space u c then rest else c ∷ cs

unfoldable pub drop_spaces_end : Unicode → Text → Text
drop_spaces_end u [] = []
drop_spaces_end u (c ∷ cs) = elim (drop_spaces_end u cs) [
  | [] ↦ if is_space u c then [] else c ∷ []
  | d ∷ ds ↦ c ∷ d ∷ ds
]

-- s.strip()
unfoldable pub strip : Unicode → Text → Text
unfolding drop_spaces drop_spaces_end
strip u s = drop_spaces_end u (drop_spaces u s)

-- s.strip(c) for one character
unfoldable pub drop_char : ℕ → Text → Text
drop_char d [] = []
drop_char d (c ∷ s) = let rest = drop_char d s in if c == d then rest else c ∷ s

unfoldable pub drop_char_end : ℕ → Text → Text
drop_char_end d [] = []
drop_char_end d (c ∷ s) = elim (drop_char_end d s) [
  | [] ↦ if c == d then [] else c ∷ []
  | e ∷ es ↦ c ∷ e ∷ es
]

unfoldable pub strip_char : ℕ → Text → Text
unfolding drop_char drop_char_end
strip_char d s = drop_char_end d (drop_char d s)

-- The characters at which `str.splitlines` breaks.
abbrev pub is_break : ℕ → Bool
is_break c = between 10 13 c || between 28 30 c || c == 133 || between 8232 8233 c

abbrev pub push : ℕ → List Text → List Text
push c [] = (c ∷ []) ∷ []
push c (l ∷ ls) = (c ∷ l) ∷ ls

-- s.splitlines()
unfoldable pub split_lines : Text → List Text
unfolding starts_with
split_lines [] = []
split_lines (c ∷ s) =
    let rest = split_lines s in
    if c == 13 && starts_with s (10 ∷ [])
    then rest
    else if is_break c
    then [] ∷ rest
    else push c rest

-- s.split(c)
unfoldable pub split_char : ℕ → Text → List Text
split_char d [] = [] ∷ []
split_char d (c ∷ s) = let rest = split_char d s in if c == d then [] ∷ rest else push c rest
