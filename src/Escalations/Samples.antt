-- ===== src/Escalations/Samples.antt =====
-- The theorems about escalations.py at small tables.
use mathlib.Core.List.{Permᴰ}
use developer_assistant.Prelude.{
  ℕ, ◌≡◌, ◌⊎◌, refl, none, some, List, [], ◌∷◌, ◌++◌, arith, All, Apart, true, if◌then◌else◌, leb,
  length, one_of,
}
use developer_assistant.Prelude.Table.{select, fetchone, returning}
use developer_assistant.Escalations.{
  pending, surfaced, approved, denied, Escalation, EscalationTable, NewEscalation, Call, resolve,
  expire, write, mark_resolved, resolve_escalation, read_pending_escalations, readable, history,
  empty_table, precedes, insert_sorted, order_rows, take, past_cooldown, status_wanted,
  urgency_rank,
}
use developer_assistant.Escalations.Lifecycle.{
  row_at, IsValid, empty_history-IsValid, resolve_is_final,
}
use developer_assistant.Escalations.Reading.{InOrder, read_pending_lem}

abbrev prompt : NewEscalation
prompt = record {
  originating_runtime = "executor";
  originating_work_item_id = none;
  trigger_kind = "deterministic_rule:git:force_push";
  context = "Rule git:force_push matched";
  proposed_action = "shell_command";
  options_json = "[]";
  recommended_default = "deny";
  impact = "git:force_push";
  urgency = "high";
  durable_artifact_target = "docs/questions/";
}

abbrev first : Escalation
first = record {
  id = 1;
  created_at = 5;
  updated_at = 5;
  originating_runtime = "executor";
  originating_work_item_id = none;
  trigger_kind = "deterministic_rule:git:force_push";
  context = "Rule git:force_push matched";
  proposed_action = "shell_command";
  options_json = "[]";
  recommended_default = "deny";
  impact = "git:force_push";
  urgency = "medium";
  durable_artifact_target = "docs/questions/";
  status = pending;
  surfaced_at = none;
  resolved_at = none;
  founder_response = none;
  telegram_message_id = none;
}

abbrev second : Escalation
second = record first { id = 2; urgency = "high" }

abbrev shown : Escalation
shown = record first { status = surfaced; surfaced_at = some 100 }

abbrev answered : Escalation
answered = record first {
  status = denied;
  resolved_at = some 9;
  founder_response = some "no";
  updated_at = 9;
}

abbrev table_of : List Escalation → EscalationTable
table_of rows = record { rows = rows; last_id = 2; work_ids = [] }

two-IsValid : IsValid (table_of (first ∷ second ∷ []))
unfolding one_of
two-IsValid = record { rows_valid = ground arith; ordered = ground arith }

empty_history-IsValid_example :
    IsValid (history ((5, write prompt) ∷ (9, resolve 1 "denied" "no") ∷ []) (empty_table []))
empty_history-IsValid_example =
    empty_history-IsValid [] ((5, write prompt) ∷ (9, resolve 1 "denied" "no") ∷ [])

abbrev later : List (ℕ × Call)
later = (20, resolve 1 "approved" "yes") ∷ (30, expire 0) ∷ []

resolve_is_final_example :
    ((answered.status ≡ approved) ⊎ (answered.status ≡ denied))
    × (answered.founder_response ≡ some "no")
    × (row_at 1
          (history later
            (resolve_escalation 9 1 "denied" "no" (table_of (first ∷ second ∷ []))).0).rows
        ≡ some answered)
unfolding resolve_escalation mark_resolved fetchone returning
resolve_is_final_example =
    resolve_is_final 9 1 "denied" "no" (table_of (first ∷ second ∷ [])) answered later two-IsValid
      refl

read_pending_lem_example :
    let t = table_of (first ∷ second ∷ []) in
    let found = select (readable 9 none) t.rows in
    let rows = read_pending_escalations 9 none 1 t in
    All (λ r. readable 9 none r ≡ true) rows
    × (length rows ≡ (if leb 1 (length found) then 1 else length found))
    × (left_out : List Escalation) × Permᴰ (rows ++ left_out) found
    × Apart InOrder (rows ++ left_out)
read_pending_lem_example = read_pending_lem 9 none 1 (table_of (first ∷ second ∷ []))

high_first :
    read_pending_escalations 9 none 10 (table_of (first ∷ second ∷ [])) ≡ second ∷ first ∷ []
unfolding read_pending_escalations readable order_rows insert_sorted precedes urgency_rank take
    past_cooldown status_wanted select
high_first = refl
