-- ===== src/ModelCatalog/Complete.antt =====
-- A table that is read has all the roles, each with three fallbacks.
use developer_assistant.Prelude.{
  String, true, some, List, [], ◌∷◌, map, is_some, length, ◌≡◌, arith, Option-cases, inl, inr,
}
use developer_assistant.Prelude.Text.{Text, Unicode, split_lines}
use developer_assistant.Prelude.Dict.{Dict, get, get-put}
use developer_assistant.Prelude.Results.{ok, Result-cases}
use developer_assistant.ModelCatalog.Table.{
  RoleAssignment, role_names, role_of, read_row, read_rows, has_all, with_all_roles, read_table,
  parse_catalog_table, after_section, before_next, table_lines, cells_of, strip_backticks,
}

abbrev pub HasThree : Dict RoleAssignment → Type 0
HasThree c = (r : String) (a : RoleAssignment) → get r c ≡ some a → length a.fallbacks ≡ 3

abbrev pub HasRoles : List String → Dict RoleAssignment → Type 0
HasRoles [] c = Unit
HasRoles (r ∷ rs) c = (is_some (get r c) ≡ true) × HasRoles rs c

row-HasThree :
    (cells : List Text) (c d : Dict RoleAssignment)
    → HasThree c
    → read_row cells c ≡ ok d
    → HasThree d
unfolding read_row
row-HasThree [] c d p h r y e = ground (arith, h)
row-HasThree (a ∷ []) c d p h r y e = ground (arith, h)
row-HasThree (a ∷ b ∷ []) c d p h r y e = ground (arith, h)
row-HasThree (a ∷ b ∷ f ∷ []) c d p h r y e = ground (arith, h)
row-HasThree (a ∷ b ∷ f ∷ g ∷ []) c d p h r y e = ground (arith, h)
row-HasThree (a ∷ b ∷ f ∷ g ∷ i ∷ x ∷ xs) c d p h r y e = ground (arith, h)
row-HasThree (n ∷ m ∷ f ∷ g ∷ i ∷ []) c d p h r y e = elim (Option-cases (role_of n)) [
  | inl o ↦ ground (arith, h, o)
  | inr (role, o) ↦
      ground
        (arith, h, o, e, get-put r role (record { main = m; fallbacks = f ∷ g ∷ i ∷ [] }) c, p r y)
]

rows-HasThree :
    (u : Unicode) (rows : List Text) (c d : Dict RoleAssignment)
    → HasThree c
    → read_rows u rows c ≡ ok d
    → HasThree d
unfolding read_rows
rows-HasThree u [] c d p h r y e = ground (arith, h, e, p r y)
rows-HasThree u (row ∷ rows) c d p h r y e =
    elim (Result-cases (read_row (map (strip_backticks u) (cells_of row)) c)) [
      | inl (x, o) ↦ ground (arith, h, o)
      | inr (b, o) ↦
          rows-HasThree u rows b d (row-HasThree (map (strip_backticks u) (cells_of row)) c b p o)
            (ground (arith, h, o)) r y e
    ]

all_of :
    (c : Dict RoleAssignment) → has_all role_names c ≡ true → HasRoles (map (λ e. e.1) role_names) c
unfolding has_all
all_of c h = ground (arith, h)

table_is_full :
    (u : Unicode) (lines : List Text) (c : Dict RoleAssignment)
    → read_table u lines ≡ ok c
    → HasRoles (map (λ e. e.1) role_names) c × HasThree c
unfolding read_table with_all_roles get
table_is_full u [] c h = ground (arith, h)
table_is_full u (a ∷ []) c h = ground (arith, h)
table_is_full u (a ∷ b ∷ []) c h = ground (arith, h)
table_is_full u (a ∷ b ∷ d ∷ rows) c h = elim (Result-cases (read_rows u (d ∷ rows) [])) [
  | inl (x, o) ↦ ground (arith, h, o)
  | inr (t, o) ↦ (
    all_of c (ground (arith, h, o)),
    rows-HasThree u (d ∷ rows) [] c (λ r y e. ground (arith, e)) (ground (arith, h, o)),
  )
]

-- A text that is read as a catalog gives an assignment to each of the five roles, and every assignment
-- has three fallbacks.
pub parsed_is_full :
    (u : Unicode) (text : Text) (c : Dict RoleAssignment)
    → parse_catalog_table u text ≡ ok c
    → HasRoles (map (λ e. e.1) role_names) c × HasThree c
unfolding parse_catalog_table
parsed_is_full u text c h = elim (Option-cases (after_section u text)) [
  | inl o ↦ ground (arith, h, o)
  | inr (rest, o) ↦
      table_is_full u (table_lines u (split_lines (before_next u rest))) c (ground (arith, h, o))
]
