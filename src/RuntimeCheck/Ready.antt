-- ===== src/RuntimeCheck/Ready.antt =====
-- runtime_check.py: when the check of a runtime passes.
use developer_assistant.Prelude.{
  Option, String, Bool, true, false, not, ◌&&◌, ◌||◌, some, List, one_of, non_empty, str_eq, ◌≡◌,
  ◌↔◌, refl, arith, Bool-cases, inl, inr,
}
use developer_assistant.Prelude.Text.{Text, codes, same_text, text_in, truthy}
use developer_assistant.Prelude.SameText.{same_text_refl, same_text-eq}
use developer_assistant.Prelude.Dict.{Dict, get}
use developer_assistant.Prelude.Results.{Result, ok}
use developer_assistant.RuntimeCheck.Host.{
  version, Host, allowed_roles, role_skills, read_config_skills, parse_disabled_toolsets,
  check_operational_db_symlink,
}
use developer_assistant.RuntimeCheck.Check.{
  Abort, same_skills, builtin_of, env_text, check_schema, check_runtime, check_tools,
}
use developer_assistant.RuntimeCheck.Passing.{
  text_in-all_in, no_gateway, allowed_is_named, Schema-cases, reading_passes, require_passes,
  gated_passes,
}
use developer_assistant.RuntimeCheck.Prompt.{HasPrompt, manifest_passes}

module _ (h : Host) (role : String) (config db : Text) (env : Dict Text) (manifest : Text)
    (delegate_gated skill_gated : Text → Option Bool) where
  -- The skills are those of the role.
  abbrev pub HasSkills : List Text → Type 0
  HasSkills skills = same_skills skills (builtin_of (get role role_skills)) ≡ true

  abbrev pub HasToken : Text → Type 0
  HasToken token = (truthy token && not (same_text token (codes "test-token-placeholder"))) ≡ true

  -- What a runtime of the role has to be like, without an order.
  pub record IsReady : Type 0 where
    pub role_allowed : one_of role allowed_roles ≡ true
    pub loaded :
        (skills : List Text) × (read_config_skills h config ≡ some skills) × HasSkills skills
    pub linked :
        truthy (env_text "HERMES_HOME" env) ≡ true
        → check_operational_db_symlink h (env_text "HERMES_HOME" env) ≡ true
    pub migrated : h.exists db ≡ true → h.schema db ≡ version (codes "3")
    pub has_token : str_eq role "orchestrator" ≡ true → HasToken (env_text "TELEGRAM_BOT_TOKEN" env)
    pub delegates_not : str_eq role "orchestrator" ≡ false → delegate_gated config ≡ some true
    pub manages_not :
        (disabled : List Text) × (parse_disabled_toolsets h config ≡ some disabled)
        × (text_in (codes "skills") disabled ≡ true → skill_gated config ≡ some true)
    pub has_prompt :
        truthy manifest ≡ true → (h.is_file manifest ≡ true) × HasPrompt h role config manifest

  schema_passes :
      (rest : Result Abort Unit)
      → (check_schema h role db rest ≡ ok tt)
        ↔ ((h.exists db ≡ true → h.schema db ≡ version (codes "3")) × (rest ≡ ok tt))
  unfolding check_schema
  schema_passes rest = elim (Schema-cases (h.schema db)) [
    | inl e ↦ ground (arith, e)
    | inr (inl e) ↦ ground (arith, e)
    | inr (inr (v, e)) ↦ ground (arith, e, same_text-eq v (codes "3"), same_text_refl (codes "3"))
  ]

  gateway_follows :
      (skills : List Text)
      → one_of role allowed_roles ≡ true
      → HasSkills skills
      → (str_eq role "orchestrator" || not (text_in (codes "telegram-gateway") skills)) ≡ true
  unfolding same_skills
  gateway_follows skills a s = elim (Bool-cases (str_eq role "orchestrator")) [
    | inl e ↦ rw e refl
    | inr e ↦ ground (
      arith,
      e,
      s,
      no_gateway role e,
      text_in-all_in (codes "telegram-gateway") skills (builtin_of (get role role_skills)),
    )
  ]

  tools_pass : IsReady → check_tools h role config manifest delegate_gated skill_gated ≡ ok tt
  unfolding check_tools
  tools_pass r =
      let (disabled, p, g) = r.manages_not in
      (gated_passes h role (not (str_eq role "orchestrator")) (delegate_gated config) _ _ _).1 (
        λ o. r.delegates_not (ground (arith, o)),
        (reading_passes h role (parse_disabled_toolsets h config) _).1 (
          disabled,
          p,
          (gated_passes h role (text_in (codes "skills") disabled) (skill_gated config) _ _ _).1
              (g, (manifest_passes h role config manifest).1 r.has_prompt),
        ),
      )

  -- The tools are the last part, so a check of them that passes completes what came before.
  tools_ready :
      one_of role allowed_roles ≡ true
      → (skills : List Text) × (read_config_skills h config ≡ some skills) × HasSkills skills
      → (truthy (env_text "HERMES_HOME" env) ≡ true
          → check_operational_db_symlink h (env_text "HERMES_HOME" env) ≡ true)
      → (h.exists db ≡ true → h.schema db ≡ version (codes "3"))
      → (str_eq role "orchestrator" ≡ true → HasToken (env_text "TELEGRAM_BOT_TOKEN" env))
      → check_tools h role config manifest delegate_gated skill_gated ≡ ok tt
      → IsReady
  unfolding check_tools
  tools_ready allowed loaded linked migrated token e =
      let (d, f) =
        (gated_passes h role (not (str_eq role "orchestrator")) (delegate_gated config) _ _ _).0
          e in
      let (disabled, p, g) = (reading_passes h role (parse_disabled_toolsets h config) _).0 f in
      let (s, k) =
        (gated_passes h role (text_in (codes "skills") disabled) (skill_gated config) _ _ _).0 g in
      record {
        role_allowed = allowed;
        loaded = loaded;
        linked = linked;
        migrated = migrated;
        has_token = token;
        delegates_not = λ o. d (ground (arith, o));
        manages_not = (disabled, p, s);
        has_prompt = (manifest_passes h role config manifest).0 k;
      }

  -- The conditions of the checks before that of the tools.
  abbrev link_holds : Bool
  link_holds =
      not (truthy (env_text "HERMES_HOME" env))
      || check_operational_db_symlink h (env_text "HERMES_HOME" env)

  abbrev token_holds : Bool
  token_holds =
      not (str_eq role "orchestrator")
      || (truthy (env_text "TELEGRAM_BOT_TOKEN" env)
          && not (same_text (env_text "TELEGRAM_BOT_TOKEN" env) (codes "test-token-placeholder")))

  abbrev gateway_holds : List Text → Bool
  gateway_holds skills =
      str_eq role "orchestrator" || not (text_in (codes "telegram-gateway") skills)

  abbrev skills_hold : List Text → Bool
  skills_hold skills = same_skills skills (builtin_of (get role role_skills))

  ready_of_pass :
      check_runtime h role config db env manifest delegate_gated skill_gated ≡ ok tt → IsReady
  unfolding check_runtime
  ready_of_pass e =
      let (_, e1) = (require_passes h role (non_empty role) _ _ _).0 e in
      let (allowed, e2) = (require_passes h role (one_of role allowed_roles) _ _ _).0 e1 in
      let (skills, p, e3) = (reading_passes h role (read_config_skills h config) _).0 e2 in
      let (_, e4) = (require_passes h role (gateway_holds skills) _ _ _).0 e3 in
      let (same, e5) = (require_passes h role (skills_hold skills) _ _ _).0 e4 in
      let (link, e6) = (require_passes h role link_holds _ _ _).0 e5 in
      let (schema, e7) = (schema_passes _).0 e6 in
      let (token, e8) = (require_passes h role token_holds _ _ _).0 e7 in
      tools_ready allowed (skills, p, same) (λ t. ground (arith, link, t)) schema
        (λ o. ground (arith, token, o)) e8

  pass_of_ready :
      IsReady → check_runtime h role config db env manifest delegate_gated skill_gated ≡ ok tt
  unfolding check_runtime
  pass_of_ready r =
      let (skills, p, same) = r.loaded in
      (require_passes h role (non_empty role) _ _ _).1 (
        allowed_is_named role r.role_allowed,
        (require_passes h role (one_of role allowed_roles) _ _ _).1 (
          r.role_allowed,
          (reading_passes h role (read_config_skills h config) _).1 (
            skills,
            p,
            (require_passes h role (gateway_holds skills) _ _ _).1 (
              gateway_follows skills r.role_allowed same,
              (require_passes h role (skills_hold skills) _ _ _).1 (
                same,
                (require_passes h role link_holds _ _ _).1 (
                  ground (arith, r.linked),
                  (schema_passes _).1 (
                    r.migrated,
                    (require_passes h role token_holds _ _ _).1
                        (ground (arith, r.has_token), tools_pass r),
                  ),
                ),
              ),
            ),
          ),
        ),
      )

  -- The check passes exactly when the runtime is ready. The role is allowed; the configuration can be
  -- read and has the skills of the role. Where HERMES_HOME is set, operational.db is a link whose
  -- target begins with the path of the shared database, and there is no state.db; where the database
  -- exists, its schema is version 3. The orchestrator has a token that is not the placeholder; for
  -- another role `delegate_task` is gated. Where the configuration disables the toolset `skills`,
  -- `skill_manage` is gated. Where a manifest is named, it is a file with a hash for the role, and the
  -- prompt is a file with that hash.
  pub check_runtime_passes :
      (check_runtime h role config db env manifest delegate_gated skill_gated ≡ ok tt) ↔ IsReady
  check_runtime_passes = (ready_of_pass, pass_of_ready)
