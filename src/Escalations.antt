-- ===== src/Escalations.antt =====
-- src/developer_assistant/escalations.py over the table `escalations` of
-- db/migrations/004_work_queue_and_escalations.sql. A time is a number of microseconds; the JSON
-- text of the options is an argument.
pub mod Lifecycle
pub mod Reading
mod Samples
use developer_assistant.Prelude.{
  ℕ, zero, suc, ◌+◌, ◌-◌, ◌*◌, String, Bool, true, false, not, ◌&&◌, ◌||◌, Option, none, some, List,
  [], ◌∷◌, ◌++◌, ltb, leb, ◌==◌, if◌then◌else◌, str_eq, one_of, is_some, length,
}
use developer_assistant.Prelude.Table.{update_where, select, returning, fetchone}

pub data Status : Type 0 where
  pending surfaced approved denied expired : Status

pub record Escalation : Type 0 where
  pub id : ℕ
  pub created_at : ℕ
  pub updated_at : ℕ
  pub originating_runtime : String
  pub originating_work_item_id : Option ℕ
  pub trigger_kind : String
  pub context : String
  pub proposed_action : String
  pub options_json : String
  pub recommended_default : String
  pub impact : String
  pub urgency : String
  pub durable_artifact_target : String
  pub status : Status
  pub surfaced_at : Option ℕ
  pub resolved_at : Option ℕ
  pub founder_response : Option String
  pub telegram_message_id : Option String

-- `last_id` is the table's entry of `sqlite_sequence`; `work_ids` holds the ids of `work_items`.
pub record EscalationTable : Type 0 where
  pub rows : List Escalation
  pub last_id : ℕ
  pub work_ids : List ℕ

-- `sqlite3.IntegrityError` and `ValueError`.
pub data Error : Type 0 where
  integrity bad_verdict : Error

pub data Result (A : Type 0) : Type 0 where
  ok : A → Result A
  err : Error → Result A

-- The arguments of `write_escalation`.
pub record NewEscalation : Type 0 where
  pub originating_runtime : String
  pub originating_work_item_id : Option ℕ
  pub trigger_kind : String
  pub context : String
  pub proposed_action : String
  pub options_json : String
  pub recommended_default : String
  pub impact : String
  pub urgency : String
  pub durable_artifact_target : String

abbrev pub is_pending : Status → Bool
is_pending pending = true
is_pending _ = false

-- `status IN ('pending', 'surfaced')`
abbrev pub is_open : Status → Bool
is_open pending = true
is_open surfaced = true
is_open _ = false

abbrev pub roles : List String
roles = "orchestrator" ∷ "planner" ∷ "architect" ∷ "executor" ∷ "reviewer" ∷ []

number_in : ℕ → List ℕ → Bool
number_in i [] = false
number_in i (j ∷ js) = (i == j) || number_in i js

-- The CHECK constraints and the foreign key of the table.
unfoldable pub checks_pass : NewEscalation → EscalationTable → Bool
unfolding one_of number_in
checks_pass n t =
    one_of n.originating_runtime roles
    && one_of n.urgency ("low" ∷ "medium" ∷ "high" ∷ [])
    && elim n.originating_work_item_id [ none ↦ true | some w ↦ number_in w t.work_ids ]

unfoldable pub new_row : ℕ → ℕ → NewEscalation → Escalation
new_row now i n = record {
  id = i;
  created_at = now;
  updated_at = now;
  originating_runtime = n.originating_runtime;
  originating_work_item_id = n.originating_work_item_id;
  trigger_kind = n.trigger_kind;
  context = n.context;
  proposed_action = n.proposed_action;
  options_json = n.options_json;
  recommended_default = n.recommended_default;
  impact = n.impact;
  urgency = n.urgency;
  durable_artifact_target = n.durable_artifact_target;
  status = pending;
  surfaced_at = none;
  resolved_at = none;
  founder_response = none;
  telegram_message_id = none;
}

unfoldable pub write_escalation : ℕ → NewEscalation → EscalationTable → EscalationTable × Result ℕ
unfolding new_row
write_escalation now n t =
    let i = t.last_id + 1 in
    if checks_pass n t
    then (record t { rows = t.rows ++ new_row now i n ∷ []; last_id = i }, ok i)
    else (t, err integrity)

abbrev pub status_text : Status → String
status_text pending = "pending"
status_text surfaced = "surfaced"
status_text approved = "approved"
status_text denied = "denied"
status_text expired = "expired"

-- CASE urgency WHEN 'high' THEN 1 WHEN 'medium' THEN 2 WHEN 'low' THEN 3; NULL sorts first.
unfoldable pub urgency_rank : String → ℕ
urgency_rank u =
    if str_eq u "high" then 1 else if str_eq u "medium" then 2 else if str_eq u "low" then 3 else 0

unfoldable pub precedes : Escalation → Escalation → Bool
precedes a b =
    let ra = urgency_rank a.urgency in
    let rb = urgency_rank b.urgency in ltb ra rb || ((ra == rb) && leb a.id b.id)

unfoldable pub insert_sorted : Escalation → List Escalation → List Escalation
insert_sorted r [] = r ∷ []
insert_sorted r (s ∷ rs) =
    let rest = insert_sorted r rs in if precedes r s then r ∷ s ∷ rs else s ∷ rest

unfoldable pub order_rows : List Escalation → List Escalation
order_rows [] = []
order_rows (r ∷ rs) = insert_sorted r (order_rows rs)

unfoldable pub take {ℓ} : {A : Type ℓ} → ℕ → List A → List A
take zero xs = []
take (suc n) [] = []
take (suc n) (x ∷ xs) = x ∷ take n xs

abbrev pub cooldown : ℕ
cooldown = 5 * 60 * 1000000

-- `surfaced_at IS NULL OR surfaced_at < ?`, at the cutoff now - 5 minutes.
unfoldable pub past_cooldown : ℕ → Escalation → Bool
past_cooldown now r = elim r.surfaced_at [ none ↦ true | some s ↦ ltb s (now - cooldown) ]

unfoldable pub status_wanted : Option (List String) → Status → Bool
unfolding one_of
status_wanted none s = one_of (status_text s) ("pending" ∷ "surfaced" ∷ [])
status_wanted (some statuses) s = one_of (status_text s) statuses

unfoldable pub readable : ℕ → Option (List String) → Escalation → Bool
readable now statuses r = status_wanted statuses r.status && past_cooldown now r

unfoldable pub read_pending_escalations :
    ℕ → Option (List String) → ℕ → EscalationTable → List Escalation
read_pending_escalations now statuses limit t =
    take limit (order_rows (select (readable now statuses) t.rows))

abbrev coalesce {ℓ} : {A : Type ℓ} → Option A → Option A → Option A
coalesce none b = b
coalesce (some a) b = some a

unfoldable pub mark_surfaced : ℕ → Option String → Escalation → Escalation
mark_surfaced now message r = record r {
  status = surfaced;
  surfaced_at = some now;
  telegram_message_id = coalesce message r.telegram_message_id;
  updated_at = now;
}

unfoldable pub mark_escalation_surfaced :
    ℕ → ℕ → Option String → EscalationTable → EscalationTable × Option Escalation
mark_escalation_surfaced now i message t = (
  record t {
    rows =
        update_where (λ r. (r.id == i) && is_pending r.status) (mark_surfaced now message) t.rows;
  },
  fetchone (returning (λ r. (r.id == i) && is_pending r.status) (mark_surfaced now message) t.rows),
)

unfoldable pub mark_resolved : ℕ → Status → String → Escalation → Escalation
mark_resolved now verdict response r = record r {
  status = verdict;
  resolved_at = some now;
  founder_response = some response;
  updated_at = now;
}

-- `verdict not in ("approved", "denied")`
unfoldable pub verdict_status : String → Option Status
verdict_status v =
    if str_eq v "approved" then some approved else if str_eq v "denied" then some denied else none

unfoldable pub resolve_as :
    ℕ → ℕ → Option Status → String → EscalationTable → EscalationTable × Result (Option Escalation)
resolve_as now i none response t = (t, err bad_verdict)
resolve_as now i (some s) response t = (
  record t {
    rows =
        update_where (λ r. (r.id == i) && is_open r.status) (mark_resolved now s response) t.rows;
  },
  ok (
      fetchone
        (returning (λ r. (r.id == i) && is_open r.status) (mark_resolved now s response) t.rows)),
)

unfoldable pub resolve_escalation :
    ℕ → ℕ → String → String → EscalationTable → EscalationTable × Result (Option Escalation)
unfolding resolve_as verdict_status
resolve_escalation now i verdict response t = resolve_as now i (verdict_status verdict) response t

abbrev pub day : ℕ
day = 24 * 60 * 60 * 1000000

-- `created_at < ?`, at the cutoff now - max_age_days.
unfoldable pub is_old : ℕ → ℕ → Escalation → Bool
is_old now max_age_days r = is_open r.status && ltb r.created_at (now - max_age_days * day)

unfoldable pub mark_expired : ℕ → Escalation → Escalation
mark_expired now r = record r { status = expired; updated_at = now }

unfoldable pub expire_old_escalations : ℕ → ℕ → EscalationTable → EscalationTable × ℕ
expire_old_escalations now max_age_days t = (
  record t { rows = update_where (is_old now max_age_days) (mark_expired now) t.rows },
  length (returning (is_old now max_age_days) (mark_expired now) t.rows),
)

-- A call of the module's functions that write, with its arguments.
pub data Call : Type 0 where
  write : NewEscalation → Call
  surface : ℕ → Option String → Call
  resolve : ℕ → String → String → Call
  expire : ℕ → Call

unfoldable pub perform : ℕ → Call → EscalationTable → EscalationTable
perform now (write n) t = (write_escalation now n t).0
perform now (surface i message) t = (mark_escalation_surfaced now i message t).0
perform now (resolve i verdict response) t = (resolve_escalation now i verdict response t).0
perform now (expire days) t = (expire_old_escalations now days t).0

unfoldable pub history : List (ℕ × Call) → EscalationTable → EscalationTable
history [] t = t
history ((now, c) ∷ cs) t = history cs (perform now c t)

abbrev pub empty_table : List ℕ → EscalationTable
empty_table work_ids = record { rows = []; last_id = 0; work_ids = work_ids }
