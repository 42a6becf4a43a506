-- ===== src/PullRequests/Reports.antt =====
-- github_pr_integration.py: the texts for Telegram. Each reads the state that `_ensure_project_state`
-- returns.
use developer_assistant.Prelude.{String, [], ◌∷◌, ◌++◌}
use developer_assistant.Prelude.Text.{Text, Unicode, codes}
use developer_assistant.PullRequests.State.{to_russian_status, to_progress_text, join}
use developer_assistant.PullRequests.Host.{Integration, project_state, ensure_project_state}

unfoldable pub compose_telegram_status : Unicode → String → Integration → Integration × Text
compose_telegram_status u k t = (ensure_project_state k t, to_russian_status u (project_state k t))

unfoldable pub compose_telegram_progress : Unicode → String → Integration → Integration × Text
compose_telegram_progress u k t = (ensure_project_state k t, to_progress_text u (project_state k t))

unfoldable pub compose_github_aware_progress_report :
    Unicode → String → Text → Text → Text → Text → Text → Integration → Integration × Text
unfolding compose_telegram_progress
compose_github_aware_progress_report u k completed current_action blocker_state decisions_needed
      notable_risks t =
    (
      ensure_project_state k t,
      join (codes "\n") (
          (codes "Завершено: " ++ completed)
          ∷ (codes "Текущее действие: " ++ current_action)
          ∷ (codes "Блокеры: " ++ blocker_state)
          ∷ (codes "Требуются решения: " ++ decisions_needed)
          ∷ (codes "Риски: " ++ notable_risks)
          ∷ (codes "GitHub: " ++ (compose_telegram_progress u k t).1)
          ∷ []),
    )
