-- ===== src/RuntimeCheck/Toolsets.antt =====
-- A list of toolsets that is written under `agent:` is what the reader of the configuration returns.
use developer_assistant.Prelude.{
  ◌∙◌, ◌&&◌, Bool-cases, inl, inr, true, false, List, [], ◌∷◌, ◌++◌, map, ◌≡◌, refl, arith, All,
}
use developer_assistant.Prelude.Text.{
  strip_char, Text, Unicode, codes, same_text, truthy, strip, drop_spaces, drop_spaces_end,
  starts_with, is_space, ends_with,
}
use developer_assistant.RuntimeCheck.Config.{
  toolsets_from, is_header, is_indented, unquoted, with_skill,
}

-- An item of the list.
abbrev pub listed : Text → Text
listed t = codes "  - " ++ t

-- A name without spaces or quotes at its ends.
abbrev pub IsPlain : Unicode → Text → Type 0
IsPlain u t =
    (truthy t ≡ true)
    × ((drop_spaces u t ≡ t)
        × ((drop_spaces_end u t ≡ t) × ((strip_char b'"' t ≡ t) × (strip_char b'\'' t ≡ t))))

strip-listed : (u : Unicode) (t : Text) → IsPlain u t → strip u (listed t) ≡ codes "- " ++ t
unfolding strip drop_spaces drop_spaces_end codes is_space
strip-listed u [] p = ground (arith, p)
strip-listed u (c ∷ t) p = rw p.1.1.0 refl

unquoted-plain : (u : Unicode) (t : Text) → IsPlain u t → unquoted u t ≡ t
unfolding strip
unquoted-plain u t p = rw (p.1.0, p.1.1.0, p.1.1.1.0, p.1.1.1.1) refl

with_named : (t : Text) (ts : List Text) → truthy t ≡ true → with_skill t ts ≡ t ∷ ts
with_named [] ts h = ground (arith, h)
with_named (c ∷ t) ts h = refl

-- A line that does not open a section `agent:`.
abbrev pub IsOther : Unicode → Text → Type 0
IsOther u line =
    (is_header line (strip u line) && same_text (strip u line) (codes "agent:")) ≡ false

-- A line of a section that does not open the list of the toolsets.
abbrev pub IsSetting : Unicode → Text → Type 0
IsSetting u line =
    (is_header line (strip u line) ≡ false)
    × (same_text (strip u line) (codes "disabled_toolsets:") ≡ false)

-- The file ends, or another section begins.
abbrev pub StartsAnew : Unicode → List Text → Type 0
StartsAnew u [] = Unit
StartsAnew u (line ∷ lines) = is_header line (strip u line) ≡ true

-- A file with the settings and the toolsets under `agent:`, between other lines.
abbrev pub agent_file : List Text → List Text → List Text → List Text → List Text
agent_file before settings ts after =
    before
    ++ (codes "agent:" ∷ (settings ++ (codes "  disabled_toolsets:" ∷ (map listed ts ++ after))))

outside :
    (u : Unicode) (lines rest : List Text)
    → All (IsOther u) lines
    → toolsets_from u false false (lines ++ rest) ≡ toolsets_from u false false rest
unfolding toolsets_from
outside u [] rest o = refl
outside u (line ∷ lines) rest o = elim (Bool-cases (is_header line (strip u line))) [
  | inl h ↦
      let other : same_text (strip u line) (codes "agent:") ≡ false = ground (arith, o.0, h) in
      rw (h, other) (outside u lines rest o.1)
  | inr h ↦ rw h (outside u lines rest o.1)
]

outside_alone :
    (u : Unicode) (lines : List Text)
    → All (IsOther u) lines
    → toolsets_from u false false lines ≡ []
unfolding toolsets_from
outside_alone u [] o = refl
outside_alone u (line ∷ lines) o = elim (Bool-cases (is_header line (strip u line))) [
  | inl h ↦
      let other : same_text (strip u line) (codes "agent:") ≡ false = ground (arith, o.0, h) in
      rw (h, other) (outside_alone u lines o.1)
  | inr h ↦ rw h (outside_alone u lines o.1)
]

section_closes :
    (u : Unicode) (lines : List Text)
    → StartsAnew u lines
    → All (IsOther u) lines
    → toolsets_from u true true lines ≡ []
unfolding toolsets_from
section_closes u [] s o = refl
section_closes u (line ∷ lines) s o =
    let other : same_text (strip u line) (codes "agent:") ≡ false = ground (arith, o.0, s) in
    rw (s, other) (outside_alone u lines o.1)

read_settings :
    (u : Unicode) (settings rest : List Text)
    → All (IsSetting u) settings
    → toolsets_from u true false (settings ++ rest) ≡ toolsets_from u true false rest
unfolding toolsets_from
read_settings u [] rest s = refl
read_settings u (line ∷ settings) rest s = rw (s.0.0, s.0.1) (read_settings u settings rest s.1)

read_list :
    (u : Unicode) (ts after : List Text)
    → All (IsPlain u) ts
    → StartsAnew u after
    → All (IsOther u) after
    → toolsets_from u true true (map listed ts ++ after) ≡ ts
unfolding toolsets_from codes is_header is_indented same_text starts_with
read_list u [] after p s o = section_closes u after s o
read_list u (t ∷ ts) after p s o =
    rw (strip-listed u t p.0, unquoted-plain u t p.0, read_list u ts after p.1 s o)
      (with_named t ts p.0.0)

list_opens :
    (u : Unicode) (rest : List Text)
    → toolsets_from u true false (codes "  disabled_toolsets:" ∷ rest)
      ≡ toolsets_from u true true rest
unfolding toolsets_from codes is_header is_indented same_text strip drop_spaces drop_spaces_end
    is_space ends_with
list_opens u rest = refl

section_opens :
    (u : Unicode) (rest : List Text)
    → toolsets_from u false false (codes "agent:" ∷ rest) ≡ toolsets_from u true false rest
unfolding toolsets_from codes is_header is_indented same_text strip drop_spaces drop_spaces_end
    is_space ends_with
section_opens u rest = refl

-- The reader returns exactly the toolsets that stand in the list under `agent:`, each on an indented
-- line with a dash and a plain name: neither the lines before, the other settings of the section, nor
-- the sections after, lists included, add one, if `agent:` opens no second section and the list ends
-- with its section.
pub toolsets_from-agent_file :
    (u : Unicode) (before settings ts after : List Text)
    → All (IsOther u) before
    → All (IsSetting u) settings
    → All (IsPlain u) ts
    → StartsAnew u after
    → All (IsOther u) after
    → toolsets_from u false false (agent_file before settings ts after) ≡ ts
toolsets_from-agent_file u before settings ts after b g p s o =
    outside u before _ b
    ∙ (section_opens u _
        ∙ (read_settings u settings _ g ∙ (list_opens u _ ∙ read_list u ts after p s o)))
