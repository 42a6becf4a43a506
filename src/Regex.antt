-- ===== src/Regex.antt =====
-- The part of Python's module `re` that the program uses: patterns are compiled from their source
-- text, and a pattern matches from a place of a text in the order of the backtracking matcher.
mod Syntax
mod Compile
pub mod Samples
pub use Syntax.{Pattern}
unfoldable pub use Compile.{compile}
use developer_assistant.Prelude.{
  ℕ, zero, suc, ◌+◌, Bool, true, false, not, ◌&&◌, ◌||◌, Option, none, some, List, [], ◌∷◌, ◌++◌,
  ltb, ◌==◌, if◌then◌else◌, length,
}
use developer_assistant.Prelude.Text.{
  Text, Unicode, between, is_space, is_digit, is_word, fold_case,
}
use developer_assistant.Regex.Syntax.{
  Regex, char, ranges, any, space, digit, word, bound, start, finish, empty, seq, alt, star,
}

-- The character before a place, and the text from it on.
abbrev pub Place : Type 0
Place = Option ℕ × Text

in_ranges : ℕ → List (ℕ × ℕ) → Bool
in_ranges c [] = false
in_ranges c ((lo, hi) ∷ rs) = between lo hi c || in_ranges c rs

-- Whether the next character, if there is one, passes, and the place behind it.
take_char : (ℕ → Bool) → Place → List Place
take_char test (before, []) = []
take_char test (before, c ∷ cs) = if test c then (some c, cs) ∷ [] else []

word_at : Unicode → Option ℕ → Bool
word_at u none = false
word_at u (some c) = is_word u c

next_char : Text → Option ℕ
next_char [] = none
next_char (c ∷ cs) = some c

differ : Bool → Bool → Bool
differ true b = not b
differ false b = b

at_start : Bool → Option ℕ → Bool
at_start multiline none = true
at_start multiline (some c) = multiline && c == 10

-- `$` holds at the end, before a last line break, and with MULTILINE before each line break.
at_finish : Bool → Text → Bool
at_finish multiline [] = true
at_finish multiline (c ∷ []) = c == 10
at_finish multiline (c ∷ d ∷ cs) = multiline && c == 10

test_place : Bool → Place → List Place
test_place true p = p ∷ []
test_place false p = []

flat_map : (Place → List Place) → List Place → List Place
flat_map f [] = []
flat_map f (p ∷ ps) = f p ++ flat_map f ps

-- Only what has read a character is repeated once more.
nearer : Place → Place → Bool
nearer (_, a) (_, b) = ltb (length a) (length b)

keep_nearer : Place → List Place → List Place
unfolding nearer
keep_nearer p [] = []
keep_nearer p (q ∷ qs) = let rest = keep_nearer p qs in if nearer q p then q ∷ rest else rest

-- `r*`, greedy. Each repetition reads a character, so the length of the text is fuel enough.
repeated : ℕ → (Place → List Place) → Place → List Place
unfolding keep_nearer flat_map
repeated zero f p = p ∷ []
repeated (suc n) f p = flat_map (repeated n f) (keep_nearer p (f p)) ++ p ∷ []

same_char : Unicode → Bool → ℕ → ℕ → Bool
same_char u true a b = fold_case u a == fold_case u b
same_char u false a b = a == b

-- The places behind a match of the pattern from a place, in the matcher's order.
unfoldable pub ends : Unicode → Bool → Bool → Regex → Place → List Place
unfolding in_ranges take_char word_at next_char differ at_start at_finish test_place flat_map
    repeated same_char is_space is_digit is_word fold_case
ends u ic ml (char a) p = take_char (same_char u ic a) p
ends u ic ml (ranges rs) p = take_char (λ c. in_ranges c rs) p
ends u ic ml any p = take_char (λ c. not (c == 10)) p
ends u ic ml space p = take_char (is_space u) p
ends u ic ml digit p = take_char (is_digit u) p
ends u ic ml word p = take_char (is_word u) p
ends u ic ml bound p = test_place (differ (word_at u p.0) (word_at u (next_char p.1))) p
ends u ic ml start p = test_place (at_start ml p.0) p
ends u ic ml finish p = test_place (at_finish ml p.1) p
ends u ic ml empty p = p ∷ []
ends u ic ml (seq r s) p = flat_map (ends u ic ml s) (ends u ic ml r p)
ends u ic ml (alt r s) p = ends u ic ml r p ++ ends u ic ml s p
ends u ic ml (star r) p = repeated (length p.1) (ends u ic ml r) p

is_match : List Place → Bool
is_match [] = false
is_match (p ∷ ps) = true

-- pattern.match(text) is not None
unfoldable pub match_start : Unicode → Pattern → Text → Bool
unfolding ends is_match
match_start u p s = is_match (ends u p.ignore_case p.multiline p.body (none, s))

search_from : Unicode → Pattern → Option ℕ → Text → Bool
unfolding ends is_match
search_from u p before [] = is_match (ends u p.ignore_case p.multiline p.body (before, []))
search_from u p before (c ∷ cs) =
    elim (is_match (ends u p.ignore_case p.multiline p.body (before, c ∷ cs))) [
      | true ↦ true
      | false ↦ search_from u p (some c) cs
    ]

-- pattern.search(text) is not None
unfoldable pub search_text : Unicode → Pattern → Text → Bool
unfolding search_from
search_text u p s = search_from u p none s

-- pattern.sub(replacement, text), for a pattern that matches no empty text: the matches from the
-- left, each the matcher's first. Each round reads a character, so the length is fuel enough.
substitute : ℕ → Unicode → Pattern → Text → Place → Text
unfolding ends
substitute zero u p new (before, s) = s
substitute (suc n) u p new (before, []) = []
substitute (suc n) u p new (before, c ∷ cs) =
    elim (ends u p.ignore_case p.multiline p.body (before, c ∷ cs)) [
      | [] ↦ c ∷ substitute n u p new (some c, cs)
      | q ∷ qs ↦ new ++ substitute n u p new q
    ]

unfoldable pub sub : Unicode → Pattern → Text → Text → Text
unfolding substitute
sub u p new s = substitute (length s + 1) u p new (none, s)
