-- ===== src/EscalationPolicy/Rules/Repository.antt =====
-- rules.py: the rules on governance artifacts and on git.
use developer_assistant.Prelude.{
  String, Bool, true, false, not, ◌&&◌, ◌||◌, List, [], ◌∷◌, one_of, str_eq,
}
use developer_assistant.Prelude.Text.{
  Text, Unicode, codes, truthy, or_text, contains, text_in, same_text,
}
use developer_assistant.Regex.{compile, search_text}
use developer_assistant.EscalationPolicy.Action.{Args, Rule, arg, hit, re_search, re_match}

abbrev governance_path : String
governance_path =
    "^docs/(prd|architecture|architecture/adr|tickets|questions|reviews|orchestration)/"

abbrev shell : List String
shell = "shell_command" ∷ []

abbrev command_or_content : Args → Text
command_or_content a = or_text (arg a "command") (arg a "content")

unfoldable pub gov_write_outside_zone : Rule
gov_write_outside_zone u kind a =
    let path = arg a "path" in
    let outside : Bool = elim a.allowed_files [
      | [] ↦ false
      | f ∷ fs ↦ truthy path && not (text_in path (f ∷ fs))
    ] in
    hit (one_of kind ("file_write" ∷ "shell_command" ∷ []) && outside) "gov:write_outside_zone"

unfoldable pub gov_delete_governance_artifact : Rule
gov_delete_governance_artifact u kind a =
    let path = arg a "path" in
    let cmd = command_or_content a in
    let deletes =
      (str_eq kind "file_delete" && truthy path && re_match u governance_path path)
      || (str_eq kind "shell_command"
          && re_search u "rm\\s+" cmd
          && re_search u governance_path cmd) in
    hit (one_of kind ("file_delete" ∷ "shell_command" ∷ []) && deletes)
      "gov:delete_governance_artifact"

-- A pattern with MULTILINE.
unfoldable pub approved_frontmatter : Unicode → Text → Bool
approved_frontmatter u s = search_text u (compile false true "^status:\\s*approved\\s*$") s

unfoldable pub gov_overwrite_approved_artifact : Rule
gov_overwrite_approved_artifact u kind a =
    let old_content = arg a "old_content" in
    let new_content = arg a "content" in
    hit
      (str_eq kind "file_write"
        && truthy old_content
        && approved_frontmatter u old_content
        && (truthy new_content && not (same_text old_content new_content)))
      "gov:overwrite_approved_artifact"

unfoldable pub gov_rename_artifact : Rule
gov_rename_artifact u kind a =
    let path = or_text (arg a "path") (arg a "old_path") in
    let dest = or_text (arg a "new_path") (arg a "destination") in
    let cmd = command_or_content a in
    let renames =
      (truthy path && re_match u governance_path path)
      || (truthy dest && re_match u governance_path dest)
      || (str_eq kind "shell_command"
          && re_search u "git\\s+mv\\s+" cmd
          && re_search u governance_path cmd) in
    hit (one_of kind ("file_rename" ∷ "file_move" ∷ "shell_command" ∷ []) && renames)
      "gov:rename_artifact"

unfoldable pub git_force_push : Rule
git_force_push u kind a =
    let cmd = arg a "command" in
    hit
      (one_of kind shell
        && re_search u "git\\s+push\\s+.*(--force\\b|-f\\b)" cmd
        && not (contains cmd (codes "--force-with-lease")))
      "git:force_push"

unfoldable pub git_force_with_lease_main_master : Rule
git_force_with_lease_main_master u kind a =
    let cmd = arg a "command" in
    hit
      (one_of kind shell
        && contains cmd (codes "--force-with-lease")
        && re_search u "(main|master)" cmd)
      "git:force_with_lease_main_master"

unfoldable pub git_hard_reset : Rule
git_hard_reset u kind a =
    hit (one_of kind shell && re_search u "git\\s+reset\\s+.*--hard" (arg a "command"))
      "git:hard_reset"

unfoldable pub git_branch_delete : Rule
git_branch_delete u kind a =
    let cmd = arg a "command" in
    hit
      (one_of kind shell
        && (re_search u "git\\s+branch\\s+(-D|--delete|--force-delete)" cmd
            || re_search u "git\\s+push\\s+.*--delete" cmd))
      "git:branch_delete"

unfoldable pub git_rebase_main_master : Rule
git_rebase_main_master u kind a =
    let cmd = arg a "command" in
    hit
      (one_of kind shell
        && re_search u "git\\s+rebase" cmd
        && re_search u "(origin/)?(main|master)" cmd)
      "git:rebase_main_master"

unfoldable pub git_no_verify_commit_or_push : Rule
git_no_verify_commit_or_push u kind a =
    hit (one_of kind shell && re_search u "git\\s+(commit|push)\\s+.*--no-verify" (arg a "command"))
      "git:no_verify_commit_or_push"
