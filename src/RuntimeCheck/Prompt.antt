-- ===== src/RuntimeCheck/Prompt.antt =====
-- runtime_check.py: when the check of the prompt against its manifest passes.
use mathlib.Core.Option.{none-ne-some}
use developer_assistant.Prelude.{
  Option, none, ap, ◌∙◌, String, true, ◌&&◌, some, ◌≡◌, ◌↔◌, refl, sym, arith, Bool-cases, inl, inr,
}
use developer_assistant.Prelude.Text.{Text, same_text, truthy}
use developer_assistant.Prelude.SameText.{same_text_refl, same_text-eq}
use developer_assistant.Prelude.Results.{ok}
use developer_assistant.RuntimeCheck.Host.{
  manifest_missing, prompt_manifest_missing, Host, read_system_prompt_path,
}
use developer_assistant.RuntimeCheck.Check.{check_manifest, check_prompt, expected_sha, abort}
use developer_assistant.RuntimeCheck.Passing.{reading_passes, require_passes}

module _ (h : Host) (role : String) (config manifest : Text) where
  -- The prompt of the configuration is a file whose hash is the one of the manifest.
  abbrev pub HasPrompt : Type 0
  HasPrompt =
      (path : Text) × (read_system_prompt_path h config ≡ some path)
      × (truthy path ≡ true)
      × (h.is_file path ≡ true)
      × (sha : Text) × (h.sha256 path ≡ some sha)
      × (expected_sha h role manifest ≡ some sha)

  prompt_passes :
      (sha : Text)
      → (check_prompt h role config sha ≡ ok tt) ↔ (
          (path : Text) × (read_system_prompt_path h config ≡ some path)
          × (truthy path ≡ true)
          × (h.is_file path ≡ true)
          × (h.sha256 path ≡ some sha))
  unfolding check_prompt
  prompt_passes sha = (
    λ e.
        let (path, p, f) = (reading_passes h role (read_system_prompt_path h config) _).0 e in
        let (c, g) = (require_passes h role (truthy path && h.is_file path) _ _ _).0 f in
        let (s, q, k) = (reading_passes h role (h.sha256 path) _).0 g in
        let (d, _) = (require_passes h role (same_text s sha) _ _ (ok tt)).0 k in
        (path, p, ground (arith, c), ground (arith, c), q ∙ ap some (same_text-eq s sha d)),
    λ (path, p, t, f, q). (reading_passes h role (read_system_prompt_path h config) _).1 (
      path,
      p,
      (require_passes h role (truthy path && h.is_file path) _ _ _).1 (
        rw (t, f) refl,
        (reading_passes h role (h.sha256 path) _).1 (
          sha,
          q,
          (require_passes h role (same_text sha sha) _ _ (ok tt)).1 (same_text_refl sha, refl),
        ),
      ),
    ),
  )

  entry_passes :
      (o : Option Text)
      → expected_sha h role manifest ≡ o
      → (elim o [
        | none ↦ abort h role prompt_manifest_missing manifest_missing
        | some sha ↦ check_prompt h role config sha
      ]
          ≡ ok tt)
        ↔ HasPrompt
  entry_passes none e = (λ r. cc, λ (path, p, t, f, sha, q, g). absurd (none-ne-some _ (sym e ∙ g)))
  entry_passes (some s) e = (
    λ r. let (path, p, t, f, q) = (prompt_passes s).0 r in (path, p, t, f, s, q, e),
    λ (path, p, t, f, sha, q, g). (prompt_passes s).1 (path, p, t, f, q ∙ (sym g ∙ e)),
  )

  pub manifest_passes :
      (check_manifest h role config manifest ≡ ok tt)
      ↔ (truthy manifest ≡ true → (h.is_file manifest ≡ true) × HasPrompt)
  unfolding check_manifest
  manifest_passes = elim (Bool-cases (truthy manifest)) [
    | inr n ↦ rw n (λ r c. cc, λ g. refl)
    | inl y ↦ rw y (
      λ r c.
          let (f, g) = (require_passes h role (h.is_file manifest) _ _ _).0 r in
          (f, (entry_passes (expected_sha h role manifest) refl).0 g),
      λ g.
          (require_passes h role (h.is_file manifest) _ _ _).1
            ((g refl).0, (entry_passes (expected_sha h role manifest) refl).1 (g refl).1),
    )
  ]
