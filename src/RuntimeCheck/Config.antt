-- ===== src/RuntimeCheck/Config.antt =====
-- runtime_check.py: the three readers of `config.yaml`, on the lines that `splitlines` gives.
use developer_assistant.Prelude.{
  Bool, true, false, not, ◌&&◌, ◌||◌, List, [], ◌∷◌, ◌==◌, if◌then◌else◌,
}
use developer_assistant.Prelude.Text.{
  strip_char, ends_with, Text, Unicode, codes, starts_with, same_text, truthy, strip,
}

-- s[2:] and s[len("path:"):]
abbrev pub after_two : Text → Text
after_two (a ∷ b ∷ s) = s
after_two _ = []

abbrev pub after_path : Text → Text
after_path (a ∷ b ∷ c ∷ d ∷ e ∷ s) = s
after_path _ = []

-- What a line says to `_read_config_skills`.
unfoldable pub ends_built_in : Text → Bool
ends_built_in s =
    starts_with s (codes "plugins:")
    || (starts_with s (codes "provider:") || same_text s (codes "external_dirs:"))

abbrev pub with_skill : Text → List Text → List Text
with_skill [] skills = skills
with_skill (c ∷ s) skills = (c ∷ s) ∷ skills

-- The frozenset is a list, in which order and repetition say nothing.
unfoldable pub skills_from : Unicode → Bool → List Text → List Text
unfolding ends_built_in
skills_from u in_built_in [] = []
skills_from u in_built_in (line ∷ lines) =
    let s = strip u line in
    let same = skills_from u in_built_in lines in
    let inside = skills_from u true lines in
    let outside = skills_from u false lines in
    if same_text s (codes "skills:")
    then same
    else if same_text s (codes "built_in:")
    then inside
    else if ends_built_in s
    then outside
    else if starts_with s (codes "- ") && in_built_in
    then with_skill (strip u (after_two s)) same
    else same

-- line.startswith((" ", "\t"))
unfoldable pub is_indented : Text → Bool
is_indented [] = false
is_indented (c ∷ s) = c == 32 || c == 9

unfoldable pub system_prompt_from : Unicode → Bool → List Text → Text
unfolding is_indented
system_prompt_from u in_section [] = []
system_prompt_from u in_section (line ∷ lines) =
    let s = strip u line in
    let same = system_prompt_from u in_section lines in
    let inside = system_prompt_from u true lines in
    let outside = system_prompt_from u false lines in
    if same_text s (codes "system_prompt:")
    then inside
    else if in_section
    then if starts_with s (codes "path:")
      then strip u (after_path s)
      else if truthy s && not (is_indented line)
      then outside
      else same
    else same

abbrev pub unquoted : Unicode → Text → Text
unquoted u s = strip_char b'\'' (strip_char b'"' (strip u s))

-- A line without indentation that ends in a colon.
unfoldable pub is_header : Text → Text → Bool
unfolding is_indented
is_header line s = truthy line && (not (is_indented line) && ends_with s (codes ":"))

unfoldable pub toolsets_from : Unicode → Bool → Bool → List Text → List Text
unfolding is_header strip_char
toolsets_from u in_agent in_list [] = []
toolsets_from u in_agent in_list (line ∷ lines) =
    let s = strip u line in
    let section = toolsets_from u (same_text s (codes "agent:")) false lines in
    let same = toolsets_from u in_agent in_list lines in
    let listing = toolsets_from u in_agent true lines in
    let closed = toolsets_from u in_agent false lines in
    if is_header line s
    then section
    else if not in_agent
    then same
    else if same_text s (codes "disabled_toolsets:")
    then listing
    else if in_list
    then if starts_with s (codes "- ")
      then with_skill (unquoted u (after_two s)) same
      else if truthy s
      then closed
      else same
    else same
