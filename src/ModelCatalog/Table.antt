-- ===== src/ModelCatalog/Table.antt =====
-- model_catalog.py: the reading of the table of MODEL-CATALOG.md. The texts of the errors are not
-- modelled.
use developer_assistant.Prelude.{
  String, Bool, true, false, not, ◌&&◌, ◌||◌, Option, none, some, List, [], ◌∷◌, ◌==◌, map, is_some,
  if◌then◌else◌, length, ltb,
}
use developer_assistant.Prelude.Text.{
  Text, Unicode, codes, starts_with, ends_with, contains, is_space, same_text, strip, strip_char,
  split_lines, split_char,
}
use developer_assistant.Prelude.Dict.{Dict, get, put}
use developer_assistant.Prelude.Results.{Result, ok, err}

pub record RoleAssignment : Type 0 where
  pub main : Text
  pub fallbacks : List Text

pub data CatalogError : Type 0 where
  auxiliary_table no_section few_rows wrong_columns malformed_separator : CatalogError
  wrong_cells unknown_name missing_roles : CatalogError

-- The names of the catalog and the roles of the code.
abbrev pub role_names : List (Text × String)
role_names =
    (codes "Orchestrator", "orchestrator")
    ∷ (codes "Business Planner", "planner")
    ∷ (codes "Architect", "architect")
    ∷ (codes "Executor", "executor")
    ∷ (codes "Reviewer", "reviewer")
    ∷ []

abbrev role_in : Text → List (Text × String) → Option String
role_in name [] = none
role_in name ((n, r) ∷ rest) =
    let later = role_in name rest in if same_text n name then some r else later

unfoldable pub role_of : Text → Option String
role_of name = role_in name role_names

unfoldable pub strip_backticks : Unicode → Text → Text
strip_backticks u s = strip u (strip_char b'`' (strip u s))

-- `4\.1\s` from here, and what follows it.
head_number : Unicode → Text → Option Text
head_number u (a ∷ b ∷ c ∷ d ∷ s) =
    if a == b'4' && (b == b'.' && (c == b'1' && is_space u d)) then some s else none
head_number u _ = none

-- `\s*4\.1\s` from here: no space begins a number, so the spaces are taken first.
after_spaces : Unicode → Text → Option Text
unfolding head_number
after_spaces u [] = none
after_spaces u (c ∷ s) =
    let rest = after_spaces u s in if is_space u c then rest else head_number u (c ∷ s)

drop_three : Text → Text
drop_three (a ∷ b ∷ c ∷ s) = s
drop_three _ = []

first_of : Option Text → Option Text → Option Text
first_of none rest = rest
first_of (some s) rest = some s

-- What follows the first match of `###\s*4\.1\s`.
unfoldable pub after_section : Unicode → Text → Option Text
unfolding after_spaces drop_three first_of
after_section u [] = none
after_section u (c ∷ s) =
    let rest = after_section u s in
    first_of
      (if starts_with (c ∷ s) (codes "###") then after_spaces u (drop_three (c ∷ s)) else none) rest

next_head : Unicode → Text → Bool
next_head u (a ∷ b ∷ c ∷ d ∷ e ∷ s) =
    starts_with (a ∷ b ∷ c ∷ d ∷ []) (codes "\n###") && is_space u e
next_head u _ = false

-- What stands before the first match of `\n###\s`.
unfoldable pub before_next : Unicode → Text → Text
unfolding next_head
before_next u [] = []
before_next u (c ∷ s) = let rest = before_next u s in if next_head u (c ∷ s) then [] else c ∷ rest

-- The stripped lines between bars.
unfoldable pub table_lines : Unicode → List Text → List Text
table_lines u [] = []
table_lines u (line ∷ lines) =
    let s = strip u line in
    let rest = table_lines u lines in
    if starts_with s (codes "|") && ends_with s (codes "|") then s ∷ rest else rest

separates : Unicode → Text → Bool
separates u [] = true
separates u (c ∷ s) = (is_space u c || (c == b'-' || (c == b':' || c == b'|'))) && separates u s

-- `^\|[\s\-:|]+\|$`
unfoldable pub is_separator : Unicode → Text → Bool
unfolding separates
is_separator u s =
    ltb 2 (length s) && (starts_with s (codes "|") && (ends_with s (codes "|") && separates u s))

unfoldable pub cells_of : Text → List Text
cells_of row = split_char b'|' (strip_char b'|' row)

-- A row of five cells, or the error.
unfoldable pub read_row :
    List Text → Dict RoleAssignment → Result CatalogError (Dict RoleAssignment)
unfolding role_of
read_row (name ∷ main ∷ fb1 ∷ fb2 ∷ fb3 ∷ []) catalog = elim (role_of name) [
  | none ↦ err unknown_name
  | some role ↦ ok (put role (record { main = main; fallbacks = fb1 ∷ fb2 ∷ fb3 ∷ [] }) catalog)
]
read_row _ catalog = err wrong_cells

abbrev pub then_rows :
    Result CatalogError (Dict RoleAssignment)
    → (Dict RoleAssignment → Result CatalogError (Dict RoleAssignment))
    → Result CatalogError (Dict RoleAssignment)
then_rows (err e) f = err e
then_rows (ok c) f = f c

unfoldable pub read_rows :
    Unicode → List Text → Dict RoleAssignment → Result CatalogError (Dict RoleAssignment)
unfolding read_row cells_of strip_backticks
read_rows u [] catalog = ok catalog
read_rows u (row ∷ rows) catalog =
    then_rows (read_row (map (strip_backticks u) (cells_of row)) catalog) (read_rows u rows)

unfoldable pub has_all : List (Text × String) → Dict RoleAssignment → Bool
has_all [] catalog = true
has_all ((n, r) ∷ rest) catalog = is_some (get r catalog) && has_all rest catalog

-- Every key is a role, so the sets differ exactly if a role is missing.
unfoldable pub with_all_roles : Dict RoleAssignment → Result CatalogError (Dict RoleAssignment)
unfolding has_all
with_all_roles catalog = if has_all role_names catalog then ok catalog else err missing_roles

unfoldable pub read_table : Unicode → List Text → Result CatalogError (Dict RoleAssignment)
unfolding read_rows with_all_roles is_separator cells_of
read_table u (header ∷ separator ∷ first ∷ rows) =
    if not (length (cells_of header) == 5)
    then err wrong_columns
    else if not (is_separator u separator)
    then err malformed_separator
    else then_rows (read_rows u (first ∷ rows) []) with_all_roles
read_table u _ = err few_rows

unfoldable pub parse_catalog_table : Unicode → Text → Result CatalogError (Dict RoleAssignment)
unfolding after_section before_next table_lines read_table
parse_catalog_table u text =
    if contains text (codes "Auxiliary classifier")
    then err auxiliary_table
    else elim (after_section u text) [
      | none ↦ err no_section
      | some rest ↦ read_table u (table_lines u (split_lines (before_next u rest)))
    ]
