-- ===== src/Scheduling/Due.antt =====
-- When the next report is due after one has been sent.
use mathlib.Core.Option
use developer_assistant.Prelude.{
  ℕ, ◌+◌, ◌*◌, String, true, some, List, [], ◌∷◌, ◌++◌, leb, ◌≡◌, refl, ap, ◌∙◌, Option-cases, inl,
  inr, eq_iff, arith, one_of, is_some, ◌||◌,
}
use developer_assistant.Prelude.Results.{ok}
use developer_assistant.Prelude.Table.{update_where}
use developer_assistant.Prelude.Rows.{fetchone-append, fetchone-update_where}
use developer_assistant.Scheduling.{
  Scheduled, has_project, read_scheduled_progress, merged, upsert_scheduled_progress, is_report_due,
  mark_report_sent, stored_interval, minute,
}

-- The row that a report leaves.
abbrev HasReport : ℕ → ℕ → ℕ → Scheduled → Type 0
HasReport now next interval r =
    (r.next_report_at ≡ some next)
    × ((r.interval_minutes ≡ some interval) × (r.last_report_at ≡ some now))

module _ (projects : List String) (clock : ℕ) (key : String) (rows : List Scheduled)
    (known : (one_of key projects || is_some (read_scheduled_progress key rows)) ≡ true) where
  read_upserted :
      (now next interval : ℕ)
      → (rows2 : List Scheduled) × ((upsert_scheduled_progress projects clock key
              (some now)
              (some next)
              (some interval)
              rows
            ≡ ok rows2)
          × ((r : Scheduled) × ((read_scheduled_progress key rows2 ≡ some r)
                × HasReport now next interval r)))
  unfolding upsert_scheduled_progress read_scheduled_progress has_project merged
  read_upserted now next interval = elim (Option-cases (read_scheduled_progress key rows)) [
    | inl e ↦
        let r : Scheduled = record {
          project_key = key;
          last_report_at = some now;
          next_report_at = some next;
          interval_minutes = some interval;
          updated_at = clock;
        } in
        (
          rows ++ r ∷ [],
          (
            ground (arith, e, known),
            (
              r,
              (
                fetchone-append (has_project key) rows r ((eq_iff key key).1 refl) ∙ rw e refl,
                (refl, (refl, refl)),
              ),
            ),
          ),
        )
    | inr (r, e) ↦ (
      update_where (has_project key) (merged (some now) (some next) (some interval) clock) rows,
      (
        ground (arith, e),
        (
          merged (some now) (some next) (some interval) clock r,
          (
            fetchone-update_where (has_project key)
                  (merged (some now) (some next) (some interval) clock) rows (λ x h. h)
                ∙ ap (Option.map (merged (some now) (some next) (some interval) clock)) e,
            (refl, (refl, refl)),
          ),
        ),
      ),
    )
  ]

  -- A report of a project that is bound or has a row is recorded. The next one is then due exactly from
  -- the stored interval on, or from sixty minutes on where none is stored, and the interval stays.
  pub due_after_report :
      (now : ℕ)
      → (rows2 : List Scheduled) × ((mark_report_sent projects clock key now rows ≡ ok rows2)
          × (((later : ℕ)
                → is_report_due key later rows2
                  ≡ leb (now + stored_interval (read_scheduled_progress key rows) * minute) later)
              × (stored_interval (read_scheduled_progress key rows2)
                  ≡ stored_interval (read_scheduled_progress key rows))))
  unfolding is_report_due mark_report_sent
  due_after_report now =
      let interval = stored_interval (read_scheduled_progress key rows) in
      let u = read_upserted now (now + interval * minute) interval in
      let r = u.1.1 in
      (u.0, (u.1.0, (λ later. rw (is_report_due, r.1.0, r.1.1.0) refl, rw (r.1.0, r.1.1.1.0) refl)))
