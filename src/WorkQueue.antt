-- ===== src/WorkQueue.antt =====
-- src/developer_assistant/work_queue.py over the table `work_items` of
-- db/migrations/004_work_queue_and_escalations.sql. A function gives back the table as the
-- connection sees it, also beside an error. A time is a number of microseconds, and its order is
-- that of the ISO texts of one fixed offset; the JSON text of a payload or a result is an argument.
pub mod Rows
pub mod Invariant
pub mod Claiming
pub mod Draining
pub mod Tools
pub mod Keys
pub mod Dedup
pub mod Leases
pub mod Attempts
mod Samples
use developer_assistant.Prelude.{
  ℕ, ◌+◌, ◌*◌, String, Bool, true, false, not, ◌&&◌, ◌||◌, Option, none, some, List, [], ◌∷◌, ◌++◌,
  map, ltb, leb, ◌==◌, if◌then◌else◌, str_eq, non_empty, one_of, is_some, length,
}
use developer_assistant.Prelude.Table.{update_where, select, returning, fetchone}

pub data Status : Type 0 where
  pending claimed completed failed released : Status

pub record WorkItem : Type 0 where
  pub id : ℕ
  pub created_at : ℕ
  pub updated_at : ℕ
  pub target_role : String
  pub kind : String
  pub dedup_key : Option String
  pub payload_json : String
  pub priority : ℕ
  pub status : Status
  pub claimed_by_runtime : Option String
  pub claimed_at : Option ℕ
  pub claim_lease_until : Option ℕ
  pub completed_at : Option ℕ
  pub result_json : Option String
  pub attempt_count : ℕ
  pub max_attempts : ℕ
  pub originating_run_id : Option String

-- `last_id` is the table's entry of `sqlite_sequence`; `runs` holds the keys of `hermes_runs`.
pub record WorkTable : Type 0 where
  pub rows : List WorkItem
  pub last_id : ℕ
  pub runs : List String

-- `integrity` is `sqlite3.IntegrityError`; `no_row` is the `TypeError` of `None["id"]`.
pub data Error : Type 0 where
  integrity no_row : Error

pub data Result (A : Type 0) : Type 0 where
  ok : A → Result A
  err : Error → Result A

-- The arguments of `write_work_item`.
pub record NewItem : Type 0 where
  pub target_role : String
  pub kind : String
  pub payload_json : String
  pub priority : ℕ
  pub dedup_key : Option String
  pub max_attempts : ℕ
  pub originating_run_id : Option String

abbrev pub is_pending : Status → Bool
is_pending pending = true
is_pending _ = false

abbrev pub is_claimed : Status → Bool
is_claimed claimed = true
is_claimed _ = false

abbrev pub is_completed : Status → Bool
is_completed completed = true
is_completed _ = false

-- `status IN ('pending','claimed','failed')`
abbrev pub is_open : Status → Bool
is_open pending = true
is_open claimed = true
is_open failed = true
is_open _ = false

unfoldable pub has_key : String → WorkItem → Bool
has_key k r = elim r.dedup_key [ none ↦ false | some j ↦ str_eq j k ]

-- The CHECK constraints of the table.
unfoldable pub checks_pass : NewItem → Bool
unfolding one_of
checks_pass n =
    one_of n.target_role ("planner" ∷ "architect" ∷ "executor" ∷ "reviewer" ∷ [])
    && leb n.priority 100

-- `originating_run_id TEXT REFERENCES hermes_runs(run_id)`, with `PRAGMA foreign_keys = ON`
unfoldable pub run_known : List String → Option String → Bool
unfolding one_of
run_known runs none = true
run_known runs (some r) = one_of r runs

-- whether a row with the key stands in the table, which `UNIQUE` forbids to a new one
unfoldable pub key_taken : Option String → List WorkItem → Bool
key_taken none rows = false
key_taken (some k) rows = is_some (fetchone (select (has_key k) rows))

unfoldable pub new_row : ℕ → ℕ → NewItem → WorkItem
new_row now i n = record {
  id = i;
  created_at = now;
  updated_at = now;
  target_role = n.target_role;
  kind = n.kind;
  dedup_key = n.dedup_key;
  payload_json = n.payload_json;
  priority = n.priority;
  status = pending;
  claimed_by_runtime = none;
  claimed_at = none;
  claim_lease_until = none;
  completed_at = none;
  result_json = none;
  attempt_count = 0;
  max_attempts = n.max_attempts;
  originating_run_id = n.originating_run_id;
}

-- The new row stands behind the others, under the next id of the sequence.
unfoldable pub append_row : ℕ → NewItem → WorkTable → WorkTable
unfolding new_row
append_row now n t =
    let i = t.last_id + 1 in record t { rows = t.rows ++ new_row now i n ∷ []; last_id = i }

-- UPDATE work_items SET dedup_key = NULL … WHERE dedup_key = ? AND status = 'completed'
unfoldable pub free_key : ℕ → String → WorkTable → WorkTable
unfolding has_key
free_key now k t = record t {
  rows =
      update_where (λ r. has_key k r && is_completed r.status)
        (λ r. record r { dedup_key = none; updated_at = now }) t.rows;
}

pub first_id : List WorkItem → Result ℕ
first_id [] = err no_row
first_id (r ∷ rs) = ok r.id

-- An ignored INSERT takes an id of the sequence too, as SQLite does on an AUTOINCREMENT key.
unfoldable pub skip_id : WorkTable → WorkTable
skip_id t = record t { last_id = t.last_id + 1 }

-- INSERT … ON CONFLICT(dedup_key) DO NOTHING RETURNING id, then the SELECT of the existing row.
unfoldable pub insert_or_find : ℕ → String → NewItem → WorkTable → WorkTable × Result ℕ
unfolding append_row has_key key_taken checks_pass run_known first_id skip_id
insert_or_find now k n t =
    if not (checks_pass n)
    then (t, err integrity)
    else if key_taken (some k) t.rows
    then (skip_id t, first_id (select (λ r. has_key k r && is_open r.status) t.rows))
    else if run_known t.runs n.originating_run_id
    then (append_row now n t, ok (t.last_id + 1))
    else (t, err integrity)

-- The INSERT without a conflict clause.
insert_plain : ℕ → NewItem → WorkTable → WorkTable × Result ℕ
unfolding append_row key_taken checks_pass run_known
insert_plain now n t =
    if checks_pass n && not (key_taken n.dedup_key t.rows) && run_known t.runs n.originating_run_id
    then (append_row now n t, ok (t.last_id + 1))
    else (t, err integrity)

-- `if dedup_key:` is false for `None` and for the empty text.
write_by_key : ℕ → Option String → NewItem → WorkTable → WorkTable × Result ℕ
unfolding free_key insert_or_find insert_plain
write_by_key now none n t = insert_plain now n t
write_by_key now (some k) n t =
    if non_empty k then insert_or_find now k n (free_key now k t) else insert_plain now n t

unfoldable pub write_work_item : ℕ → NewItem → WorkTable → WorkTable × Result ℕ
unfolding write_by_key
write_work_item now n t = write_by_key now n.dedup_key n t

-- ORDER BY priority, id
unfoldable pub precedes : WorkItem → WorkItem → Bool
precedes a b = ltb a.priority b.priority || (a.priority == b.priority && leb a.id b.id)

better : WorkItem → Option WorkItem → WorkItem
unfolding precedes
better r none = r
better r (some s) = if precedes r s then r else s

-- SELECT … ORDER BY priority, id LIMIT 1
unfoldable pub first_by_priority : List WorkItem → Option WorkItem
unfolding better
first_by_priority [] = none
first_by_priority (r ∷ rs) = some (better r (first_by_priority rs))

unfoldable pub claimable : String → WorkItem → Bool
claimable role r = str_eq r.target_role role && is_pending r.status

unfoldable pub mark_claimed : String → ℕ → ℕ → WorkItem → WorkItem
mark_claimed runtime now lease r = record r {
  status = claimed;
  claimed_by_runtime = some runtime;
  claimed_at = some now;
  claim_lease_until = some lease;
  updated_at = now;
}

abbrev pub with_id : ℕ → WorkItem → Bool
with_id i r = r.id == i

abbrev pub minute : ℕ
minute = 60 * 1000000

unfoldable pub claim_id : ℕ → String → ℕ → Option WorkItem → WorkTable → WorkTable × Option WorkItem
unfolding mark_claimed
claim_id now runtime lease none t = (t, none)
claim_id now runtime lease (some best) t = (
  record t { rows = update_where (with_id best.id) (mark_claimed runtime now lease) t.rows },
  fetchone (returning (with_id best.id) (mark_claimed runtime now lease) t.rows),
)

unfoldable pub claim_work_item : ℕ → String → String → ℕ → WorkTable → WorkTable × Option WorkItem
unfolding claim_id first_by_priority claimable
claim_work_item now runtime role lease_minutes t =
    claim_id now runtime (now + lease_minutes * minute)
      (first_by_priority (select (claimable role) t.rows)) t

-- An UPDATE of the table, with the first of the rows that it returns.
update_row : (WorkItem → Bool) → (WorkItem → WorkItem) → WorkTable → WorkTable × Option WorkItem
update_row p f t = (record t { rows = update_where p f t.rows }, fetchone (returning p f t.rows))

unfoldable pub mark_completed : ℕ → String → WorkItem → WorkItem
mark_completed now result r = record r {
  status = completed;
  completed_at = some now;
  result_json = some result;
  claim_lease_until = none;
  dedup_key = none;
  updated_at = now;
}

unfoldable pub complete_work_item : ℕ → ℕ → String → WorkTable → WorkTable × Option WorkItem
unfolding update_row mark_completed
complete_work_item now item result t =
    update_row (λ r. with_id item r && is_claimed r.status) (mark_completed now result) t

unfoldable pub unclaim : ℕ → Status → ℕ → WorkItem → WorkItem
unclaim now status attempts r = record r {
  status = status;
  claimed_by_runtime = none;
  claimed_at = none;
  claim_lease_until = none;
  attempt_count = attempts;
  updated_at = now;
}

-- CASE WHEN attempt_count + 1 >= max_attempts THEN 'failed' ELSE 'pending' END
unfoldable pub mark_released : ℕ → Bool → WorkItem → WorkItem
unfolding unclaim
mark_released now true r =
    unclaim now (if leb r.max_attempts (r.attempt_count + 1) then failed else pending)
      (r.attempt_count + 1) r
mark_released now false r = unclaim now pending r.attempt_count r

unfoldable pub release_work_item : ℕ → ℕ → Bool → WorkTable → WorkTable × Option WorkItem
unfolding update_row mark_released
release_work_item now item increment_attempts t =
    update_row (with_id item) (mark_released now increment_attempts) t

-- `status = 'claimed' AND claim_lease_until < ?`; NULL is not below anything.
unfoldable pub lease_expired : ℕ → WorkItem → Bool
lease_expired now r =
    is_claimed r.status && elim r.claim_lease_until [ none ↦ false | some u ↦ ltb u now ]

unfoldable pub reclaim_expired_leases : ℕ → WorkTable → WorkTable × ℕ
unfolding lease_expired mark_released
reclaim_expired_leases now t = (
  record t { rows = update_where (lease_expired now) (mark_released now false) t.rows },
  length (returning (lease_expired now) (mark_released now false) t.rows),
)

insert_sorted : WorkItem → List WorkItem → List WorkItem
unfolding precedes
insert_sorted r [] = r ∷ []
insert_sorted r (s ∷ rs) =
    let rest = insert_sorted r rs in if precedes r s then r ∷ s ∷ rs else s ∷ rest

-- ORDER BY priority, id
unfoldable pub order_rows : List WorkItem → List WorkItem
unfolding insert_sorted
order_rows [] = []
order_rows (r ∷ rs) = insert_sorted r (order_rows rs)

abbrev pub status_text : Status → String
status_text pending = "pending"
status_text claimed = "claimed"
status_text completed = "completed"
status_text failed = "failed"
status_text released = "released"

unfoldable pub wanted : String → Option (List String) → WorkItem → Bool
unfolding one_of
wanted role none r =
    str_eq r.target_role role
    && one_of (status_text r.status)
        ("pending" ∷ "claimed" ∷ "completed" ∷ "failed" ∷ "released" ∷ [])
wanted role (some statuses) r = str_eq r.target_role role && one_of (status_text r.status) statuses

unfoldable pub read_work_items_by_role : WorkTable → String → Option (List String) → List WorkItem
unfolding wanted order_rows
read_work_items_by_role t role statuses = order_rows (select (wanted role statuses) t.rows)

-- A call of the module's functions that write, with its arguments.
pub data Call : Type 0 where
  write : NewItem → Call
  claim : String → String → ℕ → Call
  complete : ℕ → String → Call
  release : ℕ → Bool → Call
  reclaim : Call

-- The table after a call at a time.
unfoldable pub perform : ℕ → Call → WorkTable → WorkTable
perform now (write n) t = (write_work_item now n t).0
perform now (claim runtime role minutes) t = (claim_work_item now runtime role minutes t).0
perform now (complete item result) t = (complete_work_item now item result t).0
perform now (release item increment) t = (release_work_item now item increment t).0
perform now reclaim t = (reclaim_expired_leases now t).0

unfoldable pub history : List (ℕ × Call) → WorkTable → WorkTable
history [] t = t
history ((now, c) ∷ cs) t = history cs (perform now c t)

abbrev pub empty_table : List String → WorkTable
empty_table runs = record { rows = []; last_id = 0; runs = runs }
