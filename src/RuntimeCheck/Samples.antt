-- ===== src/RuntimeCheck/Samples.antt =====
-- The theorems about the check at a small machine.
use developer_assistant.Prelude.{true, false, none, some, [], ◌∷◌, one_of, ◌≡◌, ◌↔◌, refl}
use developer_assistant.Prelude.Text.{
  strip_char, Unicode, codes, same_text, text_in, strip, drop_spaces, drop_spaces_end, starts_with,
  is_space, ends_with,
}
use developer_assistant.Prelude.Dict.{get}
use developer_assistant.Prelude.Results.{ok, err}
use developer_assistant.RuntimeCheck.Host.{
  no_row, Host, parse_disabled_toolsets, missing, found, unopened, read_config_skills,
  loaded_skills_mismatch, skills_mismatch, role_env_unset,
}
use developer_assistant.RuntimeCheck.Config.{
  toolsets_from, skills_from, system_prompt_from, is_header,
}
use developer_assistant.RuntimeCheck.Check.{
  Abort, emit_marker, check_runtime, marker_line, main_cli, in_home, env_text,
}
use developer_assistant.RuntimeCheck.Ready.{check_runtime_passes, IsReady}
use developer_assistant.RuntimeCheck.Markers.{failure_has_marker, IsMarked}
use developer_assistant.RuntimeCheck.Toolsets.{toolsets_from-agent_file, agent_file}

abbrev ascii : Unicode
ascii = record {
  word = λ c. false;
  digit = λ c. false;
  space = λ c. false;
  lower = λ c. c ∷ [];
  fold = λ c. c;
}

abbrev machine : Host
machine = record {
  unicode = ascii;
  exists = λ p. false;
  is_file = λ p. false;
  content = λ p. missing;
  link = λ p. none;
  schema = λ p. no_row;
  manifest = λ p. none;
  sha256 = λ p. some p;
  tools = none;
}

-- A planner's configuration.
abbrev ready : Host
ready = record machine {
  content = λ p. found (codes "built_in:" ∷ codes "  - cronjob" ∷ codes "  - memory" ∷ []);
}

reads_skills :
    skills_from ascii false (
      codes "skills:"
      ∷ codes "  built_in:"
      ∷ codes "    - memory"
      ∷ codes "plugins: x"
      ∷ codes "    - other"
      ∷ [])
    ≡ codes "memory" ∷ []
unfolding skills_from codes same_text strip is_space starts_with
reads_skills = refl

reads_prompt :
    system_prompt_from ascii false (codes "system_prompt:" ∷ codes "  path: /p.md" ∷ [])
    ≡ codes "/p.md"
unfolding system_prompt_from codes same_text strip is_space starts_with
reads_prompt = refl

writes_marker :
    marker_line (emit_marker "stranger" role_env_unset)
    ≡ codes "RUNTIME_CHECK_FAILED::role_env_unset\n"
unfolding marker_line codes emit_marker one_of
writes_marker = refl

toolsets_from-agent_file_example :
    toolsets_from ascii false false (
      agent_file
        (codes "skills:" ∷ codes "  - memory" ∷ [])
        (codes "  model: x" ∷ [])
        (codes "skills" ∷ [])
        (codes "plugins:" ∷ codes "  - other" ∷ []))
    ≡ codes "skills" ∷ []
unfolding strip_char drop_spaces drop_spaces_end codes is_space strip is_header same_text ends_with
toolsets_from-agent_file_example =
    toolsets_from-agent_file ascii (codes "skills:" ∷ codes "  - memory" ∷ [])
      (codes "  model: x" ∷ []) (codes "skills" ∷ []) (codes "plugins:" ∷ codes "  - other" ∷ [])
      (refl, (refl, tt)) ((refl, refl), tt) ((refl, (refl, (refl, (refl, refl)))), tt) refl
      (refl, (refl, tt))

check_runtime_passes_example :
    (check_runtime ready "planner" [] [] [] [] (λ c. some true) (λ c. some true) ≡ ok tt)
    ↔ IsReady ready "planner" [] [] [] [] (λ c. some true) (λ c. some true)
check_runtime_passes_example =
    check_runtime_passes ready "planner" [] [] [] [] (λ c. some true) (λ c. some true)

-- The machine passes the check.
is_ready : check_runtime ready "planner" [] [] [] [] (λ c. some true) (λ c. some true) ≡ ok tt
unfolding check_runtime skills_from text_in one_of get read_config_skills same_text strip codes
    is_space starts_with parse_disabled_toolsets toolsets_from ends_with
is_ready = refl

abbrev mismatch : Abort
mismatch = record {
  marker = some (emit_marker "planner" loaded_skills_mismatch);
  error = skills_mismatch;
}

fails : check_runtime machine "planner" [] [] [] [] (λ c. some true) (λ c. some true) ≡ err mismatch
unfolding check_runtime skills_from text_in one_of get read_config_skills
fails = refl

failure_has_marker_example :
    IsMarked machine "planner" [] [] (λ c. some true) (λ c. some true) mismatch
failure_has_marker_example =
    failure_has_marker machine "planner" [] [] (λ c. some true) (λ c. some true) [] [] mismatch
      fails

-- A configuration that cannot be opened ends the check without a marker and without an exit code.
abbrev locked : Host
locked = record machine { content = λ p. unopened }

escapes : main_cli locked "planner" [] ≡ none
unfolding main_cli check_runtime one_of get read_config_skills in_home env_text
escapes = refl
