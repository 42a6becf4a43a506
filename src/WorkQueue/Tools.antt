-- ===== src/WorkQueue/Tools.antt =====
-- hermes_plugins/dev_assist_work_queue/tools.py: the tools of a runtime over the queue. The role of the
-- runtime is that of its environment; the connection's table is an argument, and the texts of the
-- errors are not modelled.
use developer_assistant.Prelude.{
  ℕ, ◌+◌, ◌*◌, String, Bool, true, not, Option, none, some, List, [], ◌∷◌, one_of, str_eq,
  if◌then◌else◌, ◌≡◌, ◌∙◌, eq_iff, arith, Bool-cases, inl, inr,
}
use developer_assistant.WorkQueue.{
  WorkItem, WorkTable, Error, Result, ok, err, claimed, claimable, mark_claimed, claim_work_item,
  complete_work_item, release_work_item, write_work_item, minute,
}
use developer_assistant.WorkQueue.Invariant.{IsValid}
use developer_assistant.WorkQueue.Claiming.{claim_work_item-Takes}

pub data ToolError : Type 0 where
  role_mismatch not_claimed not_found invalid_target_role : ToolError
  queue_error : Error → ToolError

-- The answer with the status `ok` or `error`.
pub data ToolAnswer (A : Type 0) : Type 0 where
  answer : A → ToolAnswer A
  failure : ToolError → ToolAnswer A

abbrev pub allowed_target_roles : List String
allowed_target_roles = "orchestrator" ∷ "planner" ∷ "architect" ∷ "executor" ∷ "reviewer" ∷ []

abbrev pub answered : ToolError → WorkTable × Option WorkItem → WorkTable × ToolAnswer WorkItem
answered e (t, none) = (t, failure e)
answered e (t, some r) = (t, answer r)

abbrev pub claim_answer : WorkTable × Option WorkItem → WorkTable × ToolAnswer (Option WorkItem)
claim_answer (t, o) = (t, answer o)

abbrev pub write_answer : WorkTable × Result ℕ → WorkTable × ToolAnswer ℕ
write_answer (t, ok i) = (t, answer i)
write_answer (t, err e) = (t, failure (queue_error e))

unfoldable pub work_queue_claim :
    String → ℕ → String → ℕ → WorkTable → WorkTable × ToolAnswer (Option WorkItem)
work_queue_claim runtime_role now role lease_minutes t =
    if not (str_eq role runtime_role)
    then (t, failure role_mismatch)
    else claim_answer (claim_work_item now runtime_role role lease_minutes t)

unfoldable pub work_queue_complete : ℕ → ℕ → String → WorkTable → WorkTable × ToolAnswer WorkItem
work_queue_complete now item result t = answered not_claimed (complete_work_item now item result t)

unfoldable pub work_queue_release : ℕ → ℕ → Bool → WorkTable → WorkTable × ToolAnswer WorkItem
work_queue_release now item increment t =
    answered not_found (release_work_item now item increment t)

-- The maximum of attempts and the originating run are the defaults of `write_work_item`.
unfoldable pub work_queue_write :
    ℕ → String → String → String → ℕ → Option String → WorkTable → WorkTable × ToolAnswer ℕ
work_queue_write now target_role kind payload_json priority dedup_key t =
    if not (one_of target_role allowed_target_roles)
    then (t, failure invalid_target_role)
    else write_answer (
        write_work_item now
          (record {
            target_role = target_role;
            kind = kind;
            payload_json = payload_json;
            priority = priority;
            dedup_key = dedup_key;
            max_attempts = 3;
            originating_run_id = none;
          })
          t)

claimed_fields :
    (runtime role : String) (now lease : ℕ) (b r : WorkItem)
    → claimable role b ≡ true
    → r ≡ mark_claimed runtime now lease b
    → (r.target_role ≡ role) × ((r.status ≡ claimed) × (r.claimed_by_runtime ≡ some runtime))
unfolding claimable mark_claimed
claimed_fields runtime role now lease b r c e = ground (arith, c, e, (eq_iff b.target_role role).0)

-- In a valid table, an item that the claim tool answers with is one of the runtime's own role, which
-- the runtime has asked for, and the runtime holds it.
pub claim_tool_keeps_role :
    (runtime_role : String) (now : ℕ) (role : String) (minutes : ℕ) (t : WorkTable) (r : WorkItem)
    → IsValid t
    → (work_queue_claim runtime_role now role minutes t).1 ≡ answer (some r)
    → (role ≡ runtime_role)
      × ((r.target_role ≡ runtime_role)
          × ((r.status ≡ claimed) × (r.claimed_by_runtime ≡ some runtime_role)))
unfolding work_queue_claim
claim_tool_keeps_role runtime_role now role minutes t r v h =
    elim (Bool-cases (str_eq role runtime_role)) [
      | inr n ↦ ground (arith, h, n)
      | inl s ↦
          let same = (eq_iff role runtime_role).0 s in
          let takes =
            claim_work_item-Takes now runtime_role role minutes t v r (ground (arith, h, s)) in
          let f =
            claimed_fields runtime_role role now (now + minutes * minute) takes.0 r
              takes.1.was_claimable takes.1.returned in
          (same, (f.0 ∙ same, f.1))
    ]
