-- ===== src/WorkQueue/Samples.antt =====
-- The theorems about work_queue.py at small tables.
use mathlib.Core.List.{Memᴰ}
use mathlib.Core.Option
use developer_assistant.Prelude.{
  ℕ, ◌+◌, ◌*◌, String, ◌≡◌, ◌≢◌, ◌↔◌, refl, Option, none, some, List, [], ◌∷◌, ◌++◌, ◌<◌, arith,
  All, false, if◌then◌else◌, length,
}
use developer_assistant.Prelude.Table.{update_where, select, fetchone, returning}
use developer_assistant.WorkQueue.{
  pending, claimed, completed, failed, WorkItem, WorkTable, NewItem, write, claim, reclaim, ok, err,
  integrity, minute, claimable, mark_claimed, write_work_item, claim_work_item, release_work_item,
  complete_work_item, history, empty_table, has_key, checks_pass, run_known,
  read_work_items_by_role, reclaim_expired_leases, lease_expired, mark_released,
}
use developer_assistant.WorkQueue.Invariant.{IsValid, history-empty_table-IsValid}
use developer_assistant.WorkQueue.Rows.{row_at}
use developer_assistant.WorkQueue.Claiming.{
  Takes, claim_work_item-Takes, claim_none_iff, claims_differ,
}
use developer_assistant.WorkQueue.Draining.{claim_all, claims_drain}
use developer_assistant.WorkQueue.Tools.{work_queue_claim, claim_tool_keeps_role}
use developer_assistant.WorkQueue.Leases.{claim_is_held, reclaim_expired_lem}
use developer_assistant.WorkQueue.Dedup.{
  write_returns_holder, write_adds_row, IsRequested, empty_key_refused,
}
use developer_assistant.WorkQueue.Attempts.{
  key_is_reusable, release_reopens_completed, strikes, failed_at_limit,
}

abbrev task : Option String → NewItem
task key = record {
  target_role = "executor";
  kind = "ticket";
  payload_json = "{}";
  priority = 50;
  dedup_key = key;
  max_attempts = 3;
  originating_run_id = none;
}

abbrev row : ℕ → WorkItem
row i = record {
  id = i;
  created_at = 0;
  updated_at = 0;
  target_role = "executor";
  kind = "ticket";
  dedup_key = some "ticket-7";
  payload_json = "{}";
  priority = 50;
  status = pending;
  claimed_by_runtime = none;
  claimed_at = none;
  claim_lease_until = none;
  completed_at = none;
  result_json = none;
  attempt_count = 0;
  max_attempts = 3;
  originating_run_id = none;
}

abbrev other : WorkItem
other = record (row 2) { dedup_key = none; priority = 10 }

abbrev held : WorkItem
held = record (row 1) {
  status = claimed;
  claimed_by_runtime = some "exec-1";
  claimed_at = some 5;
  claim_lease_until = some 100;
}

abbrev finished : WorkItem
finished = record (row 1) {
  status = completed;
  dedup_key = none;
  claimed_by_runtime = some "exec-1";
  result_json = some "{}";
}

abbrev table_of : List WorkItem → WorkTable
table_of rows = record { rows = rows; last_id = 2; runs = [] }

abbrev two : WorkTable
two = table_of (row 1 ∷ other ∷ [])

two-IsValid : IsValid two
unfolding has_key
two-IsValid = record {
  rows_valid = ground arith;
  ordered = ground arith;
  keys_apart = ((λ k h. refl, tt), (tt, tt));
}

held-IsValid : IsValid (table_of (held ∷ []))
held-IsValid = record { rows_valid = ground arith; ordered = (tt, tt); keys_apart = (tt, tt) }

history-empty_table-IsValid_example : IsValid (
    history
      ((5, write (task (some "ticket-7"))) ∷ (6, claim "exec-1" "executor" 30) ∷ [])
      (empty_table []))
history-empty_table-IsValid_example =
    history-empty_table-IsValid []
      ((5, write (task (some "ticket-7"))) ∷ (6, claim "exec-1" "executor" 30) ∷ [])

claim_work_item-Takes_example :
    (b : WorkItem) × Takes 7
      (7 + 30 * minute)
      "exec-1"
      "executor"
      two
      (claim_work_item 7 "exec-1" "executor" 30 two).0
      b
      (mark_claimed "exec-1" 7 (7 + 30 * minute) other)
unfolding claim_work_item select fetchone returning update_where
claim_work_item-Takes_example =
    claim_work_item-Takes 7 "exec-1" "executor" 30 two two-IsValid
      (mark_claimed "exec-1" 7 (7 + 30 * minute) other) refl

claim_none_iff_example :
    ((claim_work_item 7 "rev-1" "reviewer" 30 two).1 ≡ none)
    ↔ (select (claimable "reviewer") two.rows ≡ [])
claim_none_iff_example = claim_none_iff 7 "rev-1" "reviewer" 30 two two-IsValid

claims_differ_example : other.id ≢ (row 1).id
unfolding claim_work_item select fetchone returning update_where
claims_differ_example =
    claims_differ 7 8 "exec-1" "exec-2" "executor" "executor" 30 30 two
      (mark_claimed "exec-1" 7 (7 + 30 * minute) other)
      (mark_claimed "exec-2" 8 (8 + 30 * minute) (row 1)) two-IsValid refl refl

claim_is_held_example :
    row_at 1
      (history
        ((50, reclaim) ∷ (60, claim "exec-2" "executor" 30) ∷ [])
        (table_of (held ∷ []))).rows
    ≡ some held
unfolding row_at select fetchone
claim_is_held_example =
    claim_is_held 1 100 held ((50, reclaim) ∷ (60, claim "exec-2" "executor" 30) ∷ [])
      (table_of (held ∷ [])) refl refl held-IsValid (omega arith, (tt, tt)) refl

write_returns_holder_example :
    write_work_item 9 (task (some "ticket-7")) two ≡ (record two { last_id = 2 + 1 }, ok 1)
unfolding checks_pass has_key
write_returns_holder_example =
    write_returns_holder 9 "ticket-7" (task (some "ticket-7")) (row 1) two two-IsValid refl refl
      refl (Memᴰ.head refl) refl

write_adds_row_example :
    let (t, answer) = write_work_item 9 (task (some "new")) two in
    (r : WorkItem) × (t.rows ≡ two.rows ++ r ∷ [])
    × (answer ≡ ok r.id)
    × All (λ x. x.id < r.id) two.rows
    × IsRequested (task (some "new")) r
    × ((write_work_item 10 (task (some "new")) t).1 ≡ ok r.id)
    × ((write_work_item 10 (task (some "new")) t).0.rows ≡ t.rows)
unfolding checks_pass has_key run_known
write_adds_row_example =
    write_adds_row 9 10 "new" (task (some "new")) (task (some "new")) two two-IsValid refl refl refl
      refl (refl, (refl, tt)) refl refl

key_is_reusable_example :
    let t = (complete_work_item 8 1 "{}" (table_of (held ∷ []))).0 in
    (new : WorkItem) × ((write_work_item 9 (task (some "ticket-7")) t).0.rows ≡ t.rows ++ new ∷ [])
    × ((write_work_item 9 (task (some "ticket-7")) t).1 ≡ ok new.id)
    × All (λ x. x.id < new.id) t.rows
    × IsRequested (task (some "ticket-7")) new
unfolding checks_pass has_key run_known row_at fetchone select
key_is_reusable_example =
    key_is_reusable 8 9 1 "ticket-7" "{}" (task (some "ticket-7")) held (table_of (held ∷ []))
      held-IsValid refl refl refl refl refl refl refl

empty_key_refused_example :
    (write_work_item 10 (task (some "")) (write_work_item 9 (task (some "")) two).0).1
    ≡ err integrity
unfolding write_work_item select fetchone checks_pass
empty_key_refused_example =
    empty_key_refused 9 10 (task (some "")) (task (some "")) two 3 refl refl refl

reclaim_expired_lem_example :
    let (t, count) = reclaim_expired_leases 101 (table_of (held ∷ [])) in
    All (λ r. lease_expired 101 r ≡ false) t.rows
    × (count ≡ length (select (lease_expired 101) (held ∷ [])))
    × ((i : ℕ)
        → row_at i t.rows
          ≡ Option.map
              (λ r. if lease_expired 101 r then mark_released 101 false r else r)
              (row_at i (held ∷ [])))
reclaim_expired_lem_example = reclaim_expired_lem 101 (table_of (held ∷ []))

read_both : read_work_items_by_role two "executor" none ≡ other ∷ row 1 ∷ []
unfolding read_work_items_by_role select
read_both = refl

release_reopens_completed_example :
    (r : WorkItem) × ((release_work_item 9 1 false (table_of (finished ∷ []))).1 ≡ some r)
    × (row_at 1 (release_work_item 9 1 false (table_of (finished ∷ []))).0.rows ≡ some r)
    × (r.status ≡ pending)
    × (r.result_json ≡ some "{}")
unfolding row_at select fetchone
release_reopens_completed_example =
    release_reopens_completed 9 1 (table_of (finished ∷ [])) finished refl refl

failed_at_limit_example :
    (r : WorkItem) × (row_at 1 (strikes 3 9 1 two).rows ≡ some r)
    × (r.attempt_count ≡ 0 + 3)
    × (r.max_attempts ≡ 3)
    × (r.status ≡ failed)
unfolding row_at select fetchone
failed_at_limit_example = failed_at_limit 2 9 1 two (row 1) refl

claims_drain_example :
    select
      (claimable "executor")
      (claim_all "executor" ((7, ("exec-1", 30)) ∷ (8, ("exec-2", 30)) ∷ []) two).rows
    ≡ []
unfolding select claimable
claims_drain_example =
    claims_drain "executor" ((7, ("exec-1", 30)) ∷ (8, ("exec-2", 30)) ∷ []) two two-IsValid
      (omega arith)

abbrev me : String
me = "executor"

abbrev taken : WorkItem
taken = mark_claimed me 7 (7 + 30 * minute) other

claim_tool_keeps_role_example :
    (me ≡ me)
    × ((taken.target_role ≡ me) × ((taken.status ≡ claimed) × (taken.claimed_by_runtime ≡ some me)))
unfolding work_queue_claim claim_work_item select fetchone returning mark_claimed
claim_tool_keeps_role_example = claim_tool_keeps_role me 7 me 30 two taken two-IsValid refl
