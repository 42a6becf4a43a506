-- ===== src/WorkQueue/Draining.antt =====
-- Claims of work_queue.py, one after the other: they come to an end of the pending rows of the role.
use developer_assistant.Prelude.{
  ℕ, ◌+◌, ◌*◌, ◌≤◌, ◌<◌, ◌-◌, String, ◌≡◌, inl, inr, refl, true, some, List, [], ◌∷◌, arith, ap,
  ◌==◌, length, Bool-cases, Option-cases,
}
use developer_assistant.Prelude.Table.{update_where, select, fetchone}
use developer_assistant.WorkQueue.{
  WorkItem, WorkTable, with_id, first_by_priority, claimable, mark_claimed, claim_id,
  claim_work_item, minute,
}
use developer_assistant.WorkQueue.Rows.{row_at}
use developer_assistant.WorkQueue.Invariant.{IsValid, claim_work_item-IsValid}
use developer_assistant.WorkQueue.Claiming.{chosen}
use developer_assistant.WorkQueue.Rows.{first_by_priority-none}

-- The claims of a role, each with its time, runtime and minutes.
abbrev pub claim_all : String → List (ℕ × (String × ℕ)) → WorkTable → WorkTable
claim_all role [] t = t
claim_all role ((now, (runtime, minutes)) ∷ cs) t =
    claim_all role cs (claim_work_item now runtime role minutes t).0

-- The number of the pending rows of the role.
abbrev pub waiting : String → List WorkItem → ℕ
waiting role rows = length (select (claimable role) rows)

module _ (role runtime : String) (now lease i : ℕ) where
  abbrev update : List WorkItem → List WorkItem
  update rows = update_where (with_id i) (mark_claimed runtime now lease) rows

  none_more : (rows : List WorkItem) → waiting role (update rows) ≤ waiting role rows
  unfolding update_where select mark_claimed claimable
  none_more [] = omega arith
  none_more (r ∷ rows) = ground (arith, none_more rows)

  one_less :
      (rows : List WorkItem) (b : WorkItem)
      → row_at i rows ≡ some b
      → claimable role b ≡ true
      → waiting role (update rows) < waiting role rows
  unfolding update_where select mark_claimed claimable row_at fetchone
  one_less [] b h c = ground (arith, h)
  one_less (r ∷ rows) b h c = elim (Bool-cases (r.id == i)) [
    | inl e ↦ ground (arith, h, c, e, none_more rows)
    | inr e ↦ ground (arith, h, c, e, one_less rows b)
  ]

none_left : (rows : List WorkItem) → length rows ≡ 0 → rows ≡ []
none_left [] h = refl
none_left (r ∷ rows) h = ground (arith, h)

module _ (role : String) where
  -- A claim takes one pending row of the role away, or there is none.
  claim_progresses :
      (now : ℕ) (runtime : String) (minutes : ℕ) (t : WorkTable)
      → IsValid t
      → waiting role (claim_work_item now runtime role minutes t).0.rows ≤ waiting role t.rows - 1
  unfolding claim_work_item claim_id
  claim_progresses now runtime minutes t v =
      elim (Option-cases (first_by_priority (select (claimable role) t.rows))) [
        | inl e ↦
            rw e
              (omega (arith, ap length (first_by_priority-none (select (claimable role) t.rows) e)))
        | inr (b, e) ↦
            let (c, at, first) = chosen now runtime role minutes t v b e in
            rw e
              (omega (arith, one_less role runtime now (now + minutes * minute) b.id t.rows b at c))
      ]

  -- From a valid table, as many claims of a role as it has pending rows, or more, leave no row of the
  -- role pending.
  pub claims_drain :
      (cs : List (ℕ × (String × ℕ))) (t : WorkTable)
      → IsValid t
      → waiting role t.rows ≤ length cs
      → select (claimable role) (claim_all role cs t).rows ≡ []
  claims_drain [] t v h = none_left (select (claimable role) t.rows) (omega arith)
  claims_drain ((now, (runtime, minutes)) ∷ cs) t v h =
      claims_drain cs (claim_work_item now runtime role minutes t).0
        (claim_work_item-IsValid now runtime role minutes t v)
        (omega (arith, claim_progresses now runtime minutes t v))
