-- ===== src/ModelCatalog/Verify.antt =====
-- model_catalog.py: the assignment of a role, and the check of a configuration against it.
use developer_assistant.Prelude.{
  String, Bool, true, false, not, Option, none, some, List, [], ◌∷◌, if◌then◌else◌,
}
use developer_assistant.Prelude.Text.{Text, same_text, text_in}
use developer_assistant.Prelude.Dict.{Dict, get}
use developer_assistant.ModelCatalog.Table.{RoleAssignment}

-- What `verify_runtime_config` comes to: it returns, or raises UnknownRole, CatalogViolation or, from
-- `assignment.fallbacks[i]`, IndexError.
pub data Verdict : Type 0 where
  accepted unknown_role violation index_error : Verdict

-- The `agent` of the configuration, with the values that `get` gives for missing keys.
pub record AgentConfig : Type 0 where
  pub model : Text
  pub fallback_models : List Text

unfoldable pub get_role_assignment : String → Dict RoleAssignment → Option RoleAssignment
get_role_assignment role catalog = get role catalog

unfoldable pub all_listed : List Text → List Text → Bool
all_listed [] fallbacks = true
all_listed (f ∷ fs) fallbacks =
    let rest = all_listed fs fallbacks in if text_in f fallbacks then rest else false

-- The positions of the first list in the second.
unfoldable pub verify_positions : List Text → List Text → Verdict
verify_positions [] gs = accepted
verify_positions (f ∷ fs) [] = index_error
verify_positions (f ∷ fs) (g ∷ gs) =
    let rest = verify_positions fs gs in if same_text f g then rest else violation

unfoldable pub verify_assignment : RoleAssignment → AgentConfig → Verdict
unfolding all_listed verify_positions
verify_assignment a c =
    if not (same_text c.model a.main)
    then violation
    else if not (all_listed c.fallback_models a.fallbacks)
    then violation
    else verify_positions c.fallback_models a.fallbacks

unfoldable pub verify_runtime_config : String → AgentConfig → Dict RoleAssignment → Verdict
unfolding get_role_assignment verify_assignment
verify_runtime_config role config catalog = elim (get_role_assignment role catalog) [
  | none ↦ unknown_role
  | some a ↦ verify_assignment a config
]
