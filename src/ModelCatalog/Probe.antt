-- ===== src/ModelCatalog/Probe.antt =====
-- model_catalog.py: the probes of the identifiers, and the rates. A rate is in hundredths of a dollar
-- for a million tokens.
use developer_assistant.Prelude.{
  ℕ, String, Bool, true, false, ◌||◌, Option, none, some, List, [], ◌∷◌, ◌==◌, if◌then◌else◌, map,
}
use developer_assistant.Prelude.Text.{Text, codes, same_text}
use developer_assistant.Prelude.Dict.{Dict}
use developer_assistant.ModelCatalog.Table.{RoleAssignment}
use developer_assistant.ModelCatalog.Verify.{get_role_assignment}

-- What the request comes to: the member `model` of the answer, or the exception that is caught.
pub data Answer : Type 0 where
  answered : Text → Answer
  http_error : ℕ → Answer
  url_error timeout other_error : Answer

pub record ProbeResult : Type 0 where
  pub is_ok : Bool
  pub role : String
  pub identifier : Text
  pub reason : Option String

-- The time that passed is not modelled.
unfoldable pub reason_of : Text → Answer → Option String
reason_of identifier (answered model) =
    if same_text model identifier then none else some "not_resolved"
reason_of identifier (http_error code) =
    if code == 401 || code == 403
    then some "auth_failure"
    else if code == 404
    then some "not_resolved"
    else some "unexpected_response"
reason_of identifier url_error = some "unreachable"
reason_of identifier timeout = some "timeout"
reason_of identifier other_error = some "unexpected_response"

abbrev pub is_none : Option String → Bool
is_none none = true
is_none (some r) = false

module _ (ask : Text → Answer) where
  unfoldable pub probe_identifier : String → Text → ProbeResult
  unfolding reason_of
  probe_identifier role identifier = record {
    is_ok = is_none (reason_of identifier (ask identifier));
    role = role;
    identifier = identifier;
    reason = reason_of identifier (ask identifier);
  }

  -- `none` is the UnknownRole.
  unfoldable pub probe_omniroute : String → Bool → Dict RoleAssignment → Option (List ProbeResult)
  unfolding probe_identifier
  probe_omniroute role exhaustive catalog = elim (get_role_assignment role catalog) [
    | none ↦ none
    | some a ↦
        some (map (probe_identifier role) (a.main ∷ (if exhaustive then a.fallbacks else [])))
  ]

abbrev pub model_rates : List (Text × (ℕ × ℕ))
model_rates =
    (codes "accounts/fireworks/models/deepseek-v4-pro", (50, 219))
    ∷ (codes "accounts/fireworks/models/kimi-k2p6", (60, 250))
    ∷ (codes "accounts/fireworks/models/minimax-m2p7", (27, 110))
    ∷ (codes "accounts/fireworks/models/glm-5p1", (40, 160))
    ∷ (codes "accounts/fireworks/models/qwen3p6-plus", (40, 160))
    ∷ []

abbrev rate_in : Text → List (Text × (ℕ × ℕ)) → ℕ × ℕ
rate_in m [] = (0, 0)
rate_in m ((n, r) ∷ rest) = let later = rate_in m rest in if same_text n m then r else later

unfoldable pub get_rate_for_model : Text → ℕ × ℕ
get_rate_for_model m = rate_in m model_rates
