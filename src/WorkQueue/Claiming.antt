-- ===== src/WorkQueue/Claiming.antt =====
-- What `claim_work_item` of work_queue.py gives to a runtime.
use mathlib.Core.Option
use mathlib.Core.Option.{some-injective}
use mathlib.Core.Path.{subst}
use developer_assistant.Prelude.{
  ℕ, ◌+◌, ◌*◌, String, ◌≡◌, ◌≢◌, ◌↔◌, refl, true, Option, none, some, [], arith, ap, ◌∙◌, All, ◌==◌,
  if◌then◌else◌,
}
use developer_assistant.Prelude.Table.{update_where, select}
use developer_assistant.WorkQueue.{
  pending, WorkItem, WorkTable, with_id, precedes, first_by_priority, claimable, mark_claimed,
  claim_id, claim_work_item, minute,
}
use developer_assistant.WorkQueue.Rows.{
  row_at, row_at-update_id, fetchone-returning, row_at-select, first_by_priority_lem,
  first_by_priority-none,
}
use developer_assistant.WorkQueue.Invariant.{IsValid, claim_work_item-IsValid}

-- `b` is the row that the claim takes from `t`, `r` the row that it returns, `t'` the table then.
pub record Takes (now lease : ℕ) (runtime role : String) (t t' : WorkTable) (b r : WorkItem)
    : Type 0 where
  pub was_there : row_at b.id t.rows ≡ some b
  pub was_claimable : claimable role b ≡ true
  pub was_first : All (λ s. precedes b s ≡ true) (select (claimable role) t.rows)
  pub returned : r ≡ mark_claimed runtime now lease b
  pub rows_after : (i : ℕ) → row_at i t'.rows ≡ (if i == b.id then some r else row_at i t.rows)

module _ (now : ℕ) (runtime role : String) (lease_minutes : ℕ) (t : WorkTable) (v : IsValid t) where
  abbrev pub lease : ℕ
  lease = now + lease_minutes * minute

  pub chosen :
      (b : WorkItem)
      → first_by_priority (select (claimable role) t.rows) ≡ some b
      → (claimable role b ≡ true)
        × (row_at b.id t.rows ≡ some b)
        × All (λ s. precedes b s ≡ true) (select (claimable role) t.rows)
  chosen b e =
      let (m, first) = first_by_priority_lem (select (claimable role) t.rows) b e in
      let (c, at) = row_at-select (claimable role) b t.rows v.ordered m in (c, at, first)

  pub rows_after_claim :
      (b : WorkItem) (i : ℕ)
      → row_at b.id t.rows ≡ some b
      → row_at i (update_where (with_id b.id) (mark_claimed runtime now lease) t.rows)
        ≡ (if i == b.id then some (mark_claimed runtime now lease b) else row_at i t.rows)
  rows_after_claim b i at = rw (
    row_at-update_id i b.id (mark_claimed runtime now lease) t.rows
        (λ r. unfold mark_claimed in refl),
    at,
  )

  claim_id-Takes :
      (b : WorkItem)
      → first_by_priority (select (claimable role) t.rows) ≡ some b
      → let (t', r) = claim_id now runtime lease (some b) t in
        (r ≡ some (mark_claimed runtime now lease b))
        × Takes now lease runtime role t t' b (mark_claimed runtime now lease b)
  unfolding claim_id
  claim_id-Takes b e =
      let (c, at, first) = chosen b e in
      (
        fetchone-returning b.id (mark_claimed runtime now lease) t.rows
            ∙ ap (Option.map (mark_claimed runtime now lease)) at,
        record {
          was_there = at;
          was_claimable = c;
          was_first = first;
          returned = refl;
          rows_after = λ i. rows_after_claim b i at;
        },
      )

  by_choice :
      (o : Option WorkItem)
      → first_by_priority (select (claimable role) t.rows) ≡ o
      → (r : WorkItem) → (claim_id now runtime lease o t).1 ≡ some r
      → (b : WorkItem) × Takes now lease runtime role t (claim_id now runtime lease o t).0 b r
  by_choice none e r h = absurd (unfold claim_id in cc)
  by_choice (some b) e r h =
      let (res, k) = claim_id-Takes b e in
      let same : mark_claimed runtime now lease b ≡ r = cc (res, h) in
      (
        b,
        subst (λ x. Takes now lease runtime role t (claim_id now runtime lease (some b) t).0 b x)
            same k,
      )

  -- In a valid table, a claim that returns a row takes a pending row of the role, first by priority
  -- and then by id among all of them, returns it with the runtime, the time and the lease filled
  -- in, and changes no other row.
  pub claim_work_item-Takes :
      (r : WorkItem)
      → (claim_work_item now runtime role lease_minutes t).1 ≡ some r
      → (b : WorkItem) × Takes now
          (now + lease_minutes * minute)
          runtime
          role
          t
          (claim_work_item now runtime role lease_minutes t).0
          b
          r
  unfolding claim_work_item
  claim_work_item-Takes r h =
      by_choice (first_by_priority (select (claimable role) t.rows)) refl r h

  -- In a valid table, a claim returns nothing exactly when no row of the role is pending.
  pub claim_none_iff :
      ((claim_work_item now runtime role lease_minutes t).1 ≡ none)
      ↔ (select (claimable role) t.rows ≡ [])
  unfolding claim_work_item
  claim_none_iff = (
    λ h. first_by_priority-none _ (go (first_by_priority (select (claimable role) t.rows)) refl h),
    λ h. unfold claim_id first_by_priority in rw h,
  )
    where
      go :
          (o : Option WorkItem)
          → first_by_priority (select (claimable role) t.rows) ≡ o
          → (claim_id now runtime lease o t).1 ≡ none
          → first_by_priority (select (claimable role) t.rows) ≡ none
      go none e h = e
      go (some b) e h = cc ((claim_id-Takes b e).0)

pub pending_of_claimable :
    (role : String) (b : WorkItem) → claimable role b ≡ true → b.status ≡ pending
unfolding claimable
pending_of_claimable role b h = ground arith

claimed_once :
    {now lease now' lease' : ℕ} {runtime role runtime' role' : String} {t t' t'' : WorkTable}
    {b r b' r' : WorkItem}
    → Takes now lease runtime role t t' b r
    → Takes now' lease' runtime' role' t' t'' b' r'
    → r.id ≢ r'.id
unfolding claimable mark_claimed
claimed_once {b = b} {b' = b'} first second e = ground (
  arith,
  first.rows_after b.id,
  first.returned,
  second.returned,
  second.was_there,
  second.was_claimable,
)

-- From a valid table, two claims in a row, by any runtimes for any roles, never return the same item.
pub claims_differ :
    (now now' : ℕ) (runtime runtime' role role' : String) (m m' : ℕ) (t : WorkTable)
    (a b : WorkItem)
    → IsValid t
    → (claim_work_item now runtime role m t).1 ≡ some a
    → (claim_work_item now' runtime' role' m' (claim_work_item now runtime role m t).0).1 ≡ some b
    → a.id ≢ b.id
claims_differ now now' runtime runtime' role role' m m' t a b v h k =
    claimed_once (claim_work_item-Takes now runtime role m t v a h).1
      (claim_work_item-Takes now' runtime' role' m' (claim_work_item now runtime role m t).0
        (claim_work_item-IsValid now runtime role m t v) b k).1
