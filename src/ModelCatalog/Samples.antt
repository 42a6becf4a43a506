-- ===== src/ModelCatalog/Samples.antt =====
-- The theorems about the catalog at a small one.
use developer_assistant.Prelude.{true, false, some, [], ◌∷◌, map, ◌≡◌, ◌↔◌, refl}
use developer_assistant.Prelude.Text.{
  Text, Unicode, codes, same_text, text_in, starts_with, ends_with, contains, is_space, strip,
  strip_char, split_lines, split_char,
}
use developer_assistant.Prelude.Dict.{Dict, get, put}
use developer_assistant.Prelude.Results.{ok}
use developer_assistant.ModelCatalog.Table.{
  RoleAssignment, parse_catalog_table, role_names, after_section, before_next, table_lines,
  read_table, is_separator, cells_of, read_rows, read_row, strip_backticks, role_of, with_all_roles,
  has_all,
}
use developer_assistant.ModelCatalog.Verify.{
  AgentConfig, accepted, index_error, verify_runtime_config, verify_assignment, all_listed,
}
use developer_assistant.ModelCatalog.Prefix.{
  IsPrefix, IsLonger, verify_accepts_iff, verify_index_error_iff,
}
use developer_assistant.ModelCatalog.Complete.{HasRoles, HasThree, parsed_is_full}

abbrev ascii : Unicode
ascii = record {
  word = λ c. false;
  digit = λ c. false;
  space = λ c. false;
  lower = λ c. c ∷ [];
  fold = λ c. c;
}

abbrev document : Text
document =
    codes
      "### 4.1 R\n|a|b|c|d|e|\n|-|-|-|-|-|\n|Orchestrator|`m`|x|y|z|\n|Business Planner|m|x|y|z|\n|Architect|m|x|y|z|\n|Executor|m|x|y|z|\n|Reviewer|m|x|y|z|\n### 4.2 S\n|q|"

abbrev assigned : RoleAssignment
assigned = record { main = codes "m"; fallbacks = codes "x" ∷ codes "y" ∷ codes "z" ∷ [] }

abbrev catalog : Dict RoleAssignment
catalog =
    ("orchestrator", assigned)
    ∷ ("planner", assigned)
    ∷ ("architect", assigned)
    ∷ ("executor", assigned)
    ∷ ("reviewer", assigned)
    ∷ []

parses : parse_catalog_table ascii document ≡ ok catalog
unfolding parse_catalog_table codes contains starts_with after_section before_next table_lines
    read_table split_lines is_space strip ends_with same_text is_separator cells_of split_char
    strip_char read_rows read_row strip_backticks role_of with_all_roles has_all get put
parses = refl

parsed_is_full_example : HasRoles (map (λ e. e.1) role_names) catalog × HasThree catalog
parsed_is_full_example = parsed_is_full ascii document catalog parses

abbrev two_fallbacks : AgentConfig
two_fallbacks = record { model = codes "m"; fallback_models = codes "x" ∷ codes "y" ∷ [] }

accepts_two : verify_runtime_config "executor" two_fallbacks catalog ≡ accepted
unfolding verify_runtime_config get codes same_text text_in
accepts_two = refl

verify_accepts_iff_example : (verify_runtime_config "executor" two_fallbacks catalog ≡ accepted) ↔ (
    (a : RoleAssignment) × ((get "executor" catalog ≡ some a)
      × ((codes "m" ≡ a.main) × IsPrefix (codes "x" ∷ codes "y" ∷ []) a.fallbacks)))
verify_accepts_iff_example = verify_accepts_iff "executor" two_fallbacks catalog

abbrev four_fallbacks : AgentConfig
four_fallbacks = record {
  model = codes "m";
  fallback_models = codes "x" ∷ codes "y" ∷ codes "z" ∷ codes "x" ∷ [];
}

raises : verify_assignment assigned four_fallbacks ≡ index_error
unfolding verify_assignment codes same_text text_in
raises = refl

verify_index_error_iff_example : (verify_assignment assigned four_fallbacks ≡ index_error) ↔ (
    (codes "m" ≡ codes "m")
    × ((all_listed four_fallbacks.fallback_models assigned.fallbacks ≡ true)
        × IsLonger four_fallbacks.fallback_models assigned.fallbacks))
verify_index_error_iff_example = verify_index_error_iff assigned four_fallbacks
