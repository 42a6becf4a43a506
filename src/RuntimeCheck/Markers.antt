-- ===== src/RuntimeCheck/Markers.antt =====
-- The marker and the error of a check that fails, and the exit code.
use mathlib.Core.Option
use mathlib.Core.Path.{subst}
use developer_assistant.Prelude.{
  List, Option, non_empty, String, Bool, true, false, none, some, [], one_of, str_eq, eq_iff, ◌≡◌,
  refl, ap, ◌∙◌, arith, Bool-cases, inl, inr, ◌⊎◌,
}
use developer_assistant.Prelude.Text.{Text, codes, same_text, text_in, truthy}
use developer_assistant.Prelude.Dict.{Dict, get}
use developer_assistant.Prelude.Results.{Result, ok, err}
use developer_assistant.RuntimeCheck.Host.{
  unreadable, Host, allowed_roles, role_skills, Invariant, role_env_unset, role_env_invalid,
  loaded_skills_mismatch, operational_db_path_mismatch, schema_version_mismatch,
  orchestrator_telegram_token_missing, non_orchestrator_telegram_skill_loaded,
  delegate_task_callable, skill_manage_callable, prompt_manifest_missing, prompt_sha_mismatch,
  CheckError, role_value, skills_mismatch, operational_db_path, schema_version,
  telegram_token_missing, telegram_gateway_loaded, delegate_task, skill_manage, manifest_missing,
  sha_mismatch, database_unreadable, uncaught, read_config_skills, read_system_prompt_path,
  parse_disabled_toolsets, Content, missing, unopened, found, lines_of,
}
use developer_assistant.RuntimeCheck.Config.{skills_from}
use developer_assistant.RuntimeCheck.Check.{
  Abort, emit_marker, all_in, same_skills, builtin_of, env_text, check_schema, check_manifest,
  check_prompt, check_runtime, main_cli, in_home, check_home, exit_code, require, abort,
  expected_sha, reading, require_gated, check_tools,
}
use developer_assistant.RuntimeCheck.Passing.{Schema-cases, allowed_is_named}

-- The class of the error for each invariant.
abbrev pub error_of : Invariant → CheckError
error_of role_env_unset = role_value
error_of role_env_invalid = role_value
error_of loaded_skills_mismatch = skills_mismatch
error_of operational_db_path_mismatch = operational_db_path
error_of schema_version_mismatch = schema_version
error_of orchestrator_telegram_token_missing = telegram_token_missing
error_of non_orchestrator_telegram_skill_loaded = telegram_gateway_loaded
error_of delegate_task_callable = delegate_task
error_of skill_manage_callable = skill_manage
error_of prompt_manifest_missing = manifest_missing
error_of prompt_sha_mismatch = sha_mismatch

module _ (h : Host) (role : String) (config db : Text)
    (delegate_gated skill_gated : Text → Option Bool) where
  -- The configuration or the prompt cannot be read, or a caller that asks the tools raises.
  abbrev pub HasUnreadable : Type 0
  HasUnreadable =
      (h.content config ≡ unopened)
      ⊎ ((delegate_gated config ≡ none)
          ⊎ ((skill_gated config ≡ none)
              ⊎ ((path : Text) × (read_system_prompt_path h config ≡ some path)
                  × (h.sha256 path ≡ none))))

  -- An abort has the marker of the role and of the invariant that its error is for, or it has none:
  -- the database cannot be read, or the error is that of another reading.
  abbrev pub IsMarked : Abort → Type 0
  IsMarked a =
      ((i : Invariant) × ((a.marker ≡ some (emit_marker role i)) × (a.error ≡ error_of i)))
      ⊎ (((a.marker ≡ none) × ((a.error ≡ database_unreadable) × (h.schema db ≡ unreadable)))
          ⊎ ((a.marker ≡ none) × ((a.error ≡ uncaught) × HasUnreadable)))

  Marks : Result Abort Unit → Type 0
  Marks (ok tt) = Unit
  Marks (err a) = IsMarked a

  marked : (i : Invariant) (e : CheckError) → e ≡ error_of i → Marks (abort h role i e)
  unfolding Marks
  marked i e c = inl (i, (refl, c))

  required :
      (b : Bool) (i : Invariant) (e : CheckError) (rest : Result Abort Unit)
      → e ≡ error_of i
      → Marks rest
      → Marks (require h role b i e rest)
  unfolding Marks
  required true i e rest c m = m
  required false i e rest c m = marked i e c

  read-Marks :
      {A : Type 0} (o : Option A) (rest : A → Result Abort Unit)
      → (o ≡ none → HasUnreadable)
      → ((a : A) → o ≡ some a → Marks (rest a))
      → Marks (reading h role o rest)
  unfolding Marks
  read-Marks none rest u m = inr (inr (refl, (refl, u refl)))
  read-Marks (some a) rest u m = m a refl

  gated-Marks :
      (b : Bool) (o : Option Bool) (i : Invariant) (e : CheckError) (rest : Result Abort Unit)
      → e ≡ error_of i
      → (o ≡ none → HasUnreadable)
      → Marks rest
      → Marks (require_gated h role b o i e rest)
  gated-Marks false o i e rest c u m = m
  gated-Marks true o i e rest c u m = read-Marks o _ u λ g _. required g i e rest c m

  schema-Marks : (rest : Result Abort Unit) → Marks rest → Marks (check_schema h role db rest)
  unfolding check_schema Marks
  schema-Marks rest m = elim (Bool-cases (h.exists db)) [
    | inr n ↦ rw n m
    | inl y ↦ elim (Schema-cases (h.schema db)) [
      | inl e ↦ rw (y, check_schema, e) (inr (inl (refl, (refl, e))))
      | inr (inl e) ↦ rw (y, check_schema, e) (marked schema_version_mismatch schema_version refl)
      | inr (inr (v, e)) ↦
          rw (y, check_schema, e)
            (required (same_text v (codes "3")) schema_version_mismatch schema_version rest refl m)
    ]
  ]

  passes : Marks (ok tt)
  unfolding Marks
  passes = tt

  -- Only a file that cannot be opened keeps a reader from its answer.
  unread :
      {A : Type 0} (f : List Text → A) (c : Content)
      → Option.map f (lines_of c) ≡ none
      → c ≡ unopened
  unread f missing e = cc
  unread f unopened e = refl
  unread f (found ls) e = cc

  skills_unread : read_config_skills h config ≡ none → HasUnreadable
  unfolding read_config_skills
  skills_unread e = inl (unread _ (h.content config) e)

  path_unread : read_system_prompt_path h config ≡ none → HasUnreadable
  unfolding read_system_prompt_path
  path_unread e = inl (unread _ (h.content config) e)

  toolsets_unread : parse_disabled_toolsets h config ≡ none → HasUnreadable
  unfolding parse_disabled_toolsets
  toolsets_unread e = inl (unread _ (h.content config) e)

  prompt-Marks : (sha : Text) → Marks (check_prompt h role config sha)
  unfolding check_prompt
  prompt-Marks sha = read-Marks (read_system_prompt_path h config) _ path_unread λ path p.
      required _ prompt_sha_mismatch sha_mismatch _ refl (
        read-Marks (h.sha256 path) _ (λ e. inr (inr (inr (path, p, e))))
          λ s _. required _ prompt_sha_mismatch sha_mismatch (ok tt) refl passes)

  entry-Marks :
      (o : Option Text)
      → Marks (elim o [
        | none ↦ abort h role prompt_manifest_missing manifest_missing
        | some sha ↦ check_prompt h role config sha
      ])
  entry-Marks none = marked prompt_manifest_missing manifest_missing refl
  entry-Marks (some sha) = prompt-Marks sha

  manifest-Marks : (manifest : Text) → Marks (check_manifest h role config manifest)
  unfolding check_manifest Marks
  manifest-Marks manifest = elim (Bool-cases (truthy manifest)) [
    | inr n ↦ rw n tt
    | inl y ↦ rw y (
        required (h.is_file manifest) prompt_manifest_missing manifest_missing _ refl
          (entry-Marks (expected_sha h role manifest)))
  ]

  tools-Marks :
      (manifest : Text) → Marks (check_tools h role config manifest delegate_gated skill_gated)
  unfolding check_tools
  tools-Marks manifest =
      gated-Marks _ (delegate_gated config) delegate_task_callable delegate_task _ refl
        (λ e. inr (inl e))
        (read-Marks (parse_disabled_toolsets h config) _ toolsets_unread λ disabled _.
          gated-Marks _ (skill_gated config) skill_manage_callable skill_manage _ refl
            (λ e. inr (inr (inl e))) (manifest-Marks manifest))

  err-Marks : (r : Result Abort Unit) → Marks r → (a : Abort) → r ≡ err a → IsMarked a
  unfolding Marks
  err-Marks r m a e = subst Marks e m

  -- A check that fails has raised the error that belongs to the invariant on its marker, with the
  -- role if it is allowed. It has no marker in two cases: the database cannot be read, or the error
  -- is one of another class and the configuration or the prompt cannot be read or a caller raises.
  pub failure_has_marker :
      (env : Dict Text) (manifest : Text) (a : Abort)
      → check_runtime h role config db env manifest delegate_gated skill_gated ≡ err a
      → IsMarked a
  unfolding check_runtime
  failure_has_marker env manifest = err-Marks _ (
      required _ role_env_unset role_value _ refl (
        required _ role_env_invalid role_value _ refl (
          read-Marks (read_config_skills h config) _ skills_unread λ skills _.
            required _ non_orchestrator_telegram_skill_loaded telegram_gateway_loaded _ refl (
              required _ loaded_skills_mismatch skills_mismatch _ refl (
                required _ operational_db_path_mismatch operational_db_path _ refl (
                  schema-Marks _ (
                    required _ orchestrator_telegram_token_missing telegram_token_missing _ refl
                      (tools-Marks manifest))))))))

str_eq-sym : (a b : String) → str_eq a b ≡ str_eq b a
str_eq-sym a b = ground (arith, (eq_iff a b).0, (eq_iff a b).1, (eq_iff b a).0, (eq_iff b a).1)

skills_needed :
    (role : String)
    → one_of role allowed_roles ≡ true
    → same_skills [] (builtin_of (get role role_skills)) ≡ false
unfolding one_of get same_skills all_in text_in
skills_needed role a = ground (
  arith,
  str_eq-sym role "orchestrator",
  str_eq-sym role "planner",
  str_eq-sym role "architect",
  str_eq-sym role "executor",
  str_eq-sym role "reviewer",
)

no_skills : (h : Host) (p : Text) → h.content p ≡ missing → read_config_skills h p ≡ some []
unfolding read_config_skills skills_from
no_skills h p e = rw e refl

nothing_in : (s : Text) → text_in s [] ≡ false
unfolding text_in
nothing_in s = refl

-- Without HERMES_HOME, and where the empty path is no file, the exit code is 78.
pub main_cli_without_home :
    (h : Host) (role : String) (env : Dict Text)
    → env_text "HERMES_HOME" env ≡ []
    → h.content [] ≡ missing
    → main_cli h role env ≡ some 78
unfolding main_cli in_home check_runtime
main_cli_without_home h role env e l =
    ap (λ x. exit_code (check_home h role env x)) e
    ∙ elim (Bool-cases (one_of role allowed_roles)) [
      | inr n ↦ elim (Bool-cases (non_empty role)) [ inr m ↦ rw m refl | inl m ↦ rw (m, n) refl ]
      | inl a ↦ elim (Bool-cases (str_eq role "orchestrator")) [
        | inl o ↦ rw (allowed_is_named role a, a, no_skills h [] l, o, skills_needed role a) refl
        | inr o ↦
            rw
              (
                allowed_is_named role a,
                a,
                no_skills h [] l,
                o,
                nothing_in (codes "telegram-gateway"),
                skills_needed role a,
              )
              refl
      ]
    ]
