-- ===== src/Scheduling/Samples.antt =====
-- The theorem about the schedule at a small table.
use developer_assistant.Prelude.{
  one_of, ℕ, List, ◌+◌, ◌*◌, true, none, some, [], ◌∷◌, leb, ◌≡◌, refl,
}
use developer_assistant.Prelude.Results.{ok}
use developer_assistant.Prelude.Table.{select, fetchone}
use developer_assistant.Scheduling.{
  Scheduled, has_project, is_report_due, mark_report_sent, stored_interval, read_scheduled_progress,
  minute,
}
use developer_assistant.Scheduling.Due.{due_after_report}

abbrev daily : Scheduled
daily = record {
  project_key = "p";
  last_report_at = none;
  next_report_at = none;
  interval_minutes = some 1440;
  updated_at = 0;
}

first_is_due : is_report_due "q" 5 (daily ∷ []) ≡ true
unfolding is_report_due select fetchone has_project
first_is_due = refl

due_after_report_example :
    (rows2 : List Scheduled) × ((mark_report_sent [] 5 "p" 5 (daily ∷ []) ≡ ok rows2)
      × (((later : ℕ)
            → is_report_due "p" later rows2
              ≡ leb (5 + stored_interval (read_scheduled_progress "p" (daily ∷ [])) * minute) later)
          × (stored_interval (read_scheduled_progress "p" rows2)
              ≡ stored_interval (read_scheduled_progress "p" (daily ∷ [])))))
unfolding read_scheduled_progress select fetchone has_project one_of
due_after_report_example = due_after_report [] 5 "p" (daily ∷ []) refl 5
