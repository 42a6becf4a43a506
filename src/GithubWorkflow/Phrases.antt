-- ===== src/GithubWorkflow/Phrases.antt =====
-- The blocked phrase that has a capital letter.
use developer_assistant.Prelude.{
  ℕ, ◌+◌, String, Bool, true, false, ◌||◌, List, [], ◌∷◌, ◌++◌, if◌then◌else◌, map, ◌==◌, ltb, ◌≡◌,
  refl, arith,
}
use developer_assistant.Prelude.Text.{
  Text, Unicode, between, codes, lower, contains, contains_any, starts_with,
}
use developer_assistant.GithubWorkflow.Commands.{has_blocked_phrase}

unfoldable pub member : ℕ → Text → Bool
member c [] = false
member c (d ∷ s) = d == c || member c s

member-append : (c : ℕ) (s t : Text) → member c (s ++ t) ≡ (member c s || member c t)
unfolding member
member-append c [] t = refl
member-append c (d ∷ s) t = ground (arith, member-append c s t)

member-starts_with :
    (c : ℕ) (s t : Text) → starts_with s t ≡ true → member c t ≡ true → member c s ≡ true
unfolding member starts_with
member-starts_with c s [] h m = ground arith
member-starts_with c [] (d ∷ t) h m = ground arith
member-starts_with c (a ∷ s) (d ∷ t) h m = ground (arith, member-starts_with c s t)

member_tail : (c a : ℕ) (s : Text) → member c s ≡ true → member c (a ∷ s) ≡ true
unfolding member
member_tail c a s h = ground arith

member-contains : (c : ℕ) (s t : Text) → contains s t ≡ true → member c t ≡ true → member c s ≡ true
unfolding contains
member-contains c [] t h m = member-starts_with c [] t h m
member-contains c (a ∷ s) t h m =
    ground (arith, member-starts_with c (a ∷ s) t, member-contains c s t, member_tail c a s)

-- No lower-case mapping of the character database gives the letter D.
-- The database speaks of the code points from 128 on.
abbrev pub LowersToNoD : Unicode → Type 0
LowersToNoD u = (c : ℕ) → ltb c 128 ≡ false → member 68 (u.lower c) ≡ false

member-lower : (u : Unicode) → LowersToNoD u → (s : Text) → member 68 (lower u s) ≡ false
unfolding lower member
member-lower u h [] = refl
member-lower u h (c ∷ s) = ground (
  arith,
  member-append 68 (if ltb c 128 then (if between 65 90 c then c + 32 else c) ∷ [] else u.lower c)
      (lower u s),
  member-lower u h s,
  h c,
)

-- The blocked phrases without `branch -D`.
abbrev pub other_phrases : List String
other_phrases =
    "force push" ∷ "hard reset" ∷ "branch --delete" ∷ "reset --hard" ∷ "push --force" ∷ "push -f"
    ∷ "push --force-with-lease" ∷ []

has_capital : member 68 (codes "branch -D") ≡ true
unfolding member codes
has_capital = refl

-- Where no lower-case mapping gives the letter D, the blocked phrase `branch -D` blocks nothing: the
-- test of the phrases gives the same without it.
pub capital_phrase_blocks_nothing :
    (u : Unicode)
    → LowersToNoD u
    → (s : Text) → has_blocked_phrase u s ≡ contains_any (lower u s) (map codes other_phrases)
unfolding has_blocked_phrase contains_any
capital_phrase_blocks_nothing u h s =
    ground
      (arith, member-contains 68 (lower u s) (codes "branch -D"), member-lower u h s, has_capital)
