-- ===== src/Scheduling.antt =====
-- src/developer_assistant/progress_scheduling.py over the table `scheduled_progress` of state_store.py.
-- `projects` holds the keys of `project_bindings`, which a new row refers to. A time is a number of microseconds, whose order is that of the ISO texts of one fixed offset.
pub mod Due
mod Samples
use developer_assistant.Prelude.{
  ℕ, ◌+◌, ◌*◌, String, Bool, true, false, Option, none, some, List, [], ◌∷◌, ◌++◌, str_eq, leb,
  one_of, if◌then◌else◌,
}
use developer_assistant.Prelude.Results.{Result, ok, err}
use developer_assistant.Prelude.Table.{update_where, select, fetchone}

pub record Scheduled : Type 0 where
  pub project_key : String
  pub last_report_at : Option ℕ
  pub next_report_at : Option ℕ
  pub interval_minutes : Option ℕ
  pub updated_at : ℕ

unfoldable pub has_project : String → Scheduled → Bool
has_project key r = str_eq r.project_key key

unfoldable pub read_scheduled_progress : String → List Scheduled → Option Scheduled
unfolding has_project
read_scheduled_progress key rows = fetchone (select (has_project key) rows)

-- COALESCE(new, old)
abbrev pub coalesce : Option ℕ → Option ℕ → Option ℕ
coalesce none old = old
coalesce (some n) old = some n

-- DO UPDATE SET … with the values that were to be inserted
unfoldable pub merged : Option ℕ → Option ℕ → Option ℕ → ℕ → Scheduled → Scheduled
merged last next interval now r = record r {
  last_report_at = coalesce last r.last_report_at;
  next_report_at = coalesce next r.next_report_at;
  interval_minutes = coalesce interval r.interval_minutes;
  updated_at = now;
}

-- `integrity` is the IntegrityError of the REFERENCES constraint.
pub data StoreError : Type 0 where
  integrity : StoreError

unfoldable pub upsert_scheduled_progress :
    List String
    → ℕ
    → String
    → Option ℕ
    → Option ℕ
    → Option ℕ
    → List Scheduled
    → Result StoreError (List Scheduled)
unfolding has_project merged
upsert_scheduled_progress projects now key last next interval rows =
    elim (read_scheduled_progress key rows) [
      | some r ↦ ok (update_where (has_project key) (merged last next interval now) rows)
      | none ↦
          if one_of key projects
          then ok (
              rows
              ++ record {
                project_key = key;
                last_report_at = last;
                next_report_at = next;
                interval_minutes = interval;
                updated_at = now;
              }
                ∷ [])
          else err integrity
    ]

abbrev pub due_at : Option ℕ → ℕ → Bool
due_at none now = false
due_at (some next) now = leb next now

unfoldable pub is_report_due : String → ℕ → List Scheduled → Bool
unfolding read_scheduled_progress
is_report_due key now rows = elim (read_scheduled_progress key rows) [
  | none ↦ true
  | some r ↦ due_at r.next_report_at now
]

abbrev pub or_sixty : Option ℕ → ℕ
or_sixty none = 60
or_sixty (some m) = m

abbrev pub stored_interval : Option Scheduled → ℕ
stored_interval none = 60
stored_interval (some r) = or_sixty r.interval_minutes

abbrev pub minute : ℕ
minute = 60000000

-- `clock` is the time of the write, `now` the time of the report.
unfoldable pub mark_report_sent :
    List String → ℕ → String → ℕ → List Scheduled → Result StoreError (List Scheduled)
unfolding read_scheduled_progress upsert_scheduled_progress
mark_report_sent projects clock key now rows =
    let interval = stored_interval (read_scheduled_progress key rows) in
    upsert_scheduled_progress projects clock key (some now) (some (now + interval * minute))
      (some interval) rows
