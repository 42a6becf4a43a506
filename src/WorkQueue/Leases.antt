-- ===== src/WorkQueue/Leases.antt =====
-- How long a claim of work_queue.py is held, and `reclaim_expired_leases`.
use mathlib.Core.Option
use developer_assistant.Prelude.{
  ℕ, ◌+◌, ◌*◌, ◌≤◌, String, ◌≡◌, ◌≢◌, ◌⊎◌, refl, Bool, true, false, not, ◌&&◌, Option, none, some,
  List, [], ◌∷◌, ◌++◌, arith, Bool-cases, inl, inr, All, if◌then◌else◌, length, non_empty,
}
use developer_assistant.Prelude.Table.{update_where, select, fetchone, returning}
use developer_assistant.WorkQueue.{
  claimed, WorkItem, WorkTable, NewItem, Call, write, claim, complete, release, reclaim, has_key,
  is_completed, is_claimed, first_by_priority, claimable, claim_id, claim_work_item, minute,
  append_row, skip_id, free_key, insert_or_find, insert_plain, write_by_key, write_work_item,
  complete_work_item, mark_completed, mark_released, release_work_item, checks_pass, key_taken,
  run_known, new_row, lease_expired, reclaim_expired_leases, perform, history,
}
use developer_assistant.WorkQueue.Rows.{
  row_at, row_at-update_where, row_at-update_id, row_at-update_id_if,
}
use developer_assistant.WorkQueue.Invariant.{IsValid, perform-IsValid, mark_released-keeps}
use developer_assistant.WorkQueue.Claiming.{chosen, rows_after_claim, pending_of_claimable}

length-returning :
    (p : WorkItem → Bool) (f : WorkItem → WorkItem) (rows : List WorkItem)
    → length (returning p f rows) ≡ length (select p rows)
unfolding returning select
length-returning p f [] = refl
length-returning p f (r ∷ rows) = ground (arith, length-returning p f rows)

none_left :
    (now : ℕ) (rows : List WorkItem)
    → All
        (λ r. lease_expired now r ≡ false)
        (update_where (lease_expired now) (mark_released now false) rows)
unfolding update_where lease_expired mark_released
none_left now [] = tt
none_left now (r ∷ rows) = (ground arith, none_left now rows)

-- A reclaim leaves no claimed row with a lease before its time, counts the rows that had one, puts
-- each of these back as pending without a runtime or a lease, and leaves every other row as it was.
pub reclaim_expired_lem :
    (now : ℕ) (t : WorkTable)
    → let (t', count) = reclaim_expired_leases now t in
      All (λ r. lease_expired now r ≡ false) t'.rows
      × (count ≡ length (select (lease_expired now) t.rows))
      × ((i : ℕ)
          → row_at i t'.rows
            ≡ Option.map
                (λ r. if lease_expired now r then mark_released now false r else r)
                (row_at i t.rows))
unfolding reclaim_expired_leases
reclaim_expired_lem now t = (
  none_left now t.rows,
  length-returning (lease_expired now) (mark_released now false) t.rows,
  λ i.
      row_at-update_where (lease_expired now) (mark_released now false)
        (λ r. (mark_released-keeps now false r).0) i t.rows,
)

-- What may happen to others while the row `i` is held with a lease until `until`.
abbrev pub Spares : ℕ → ℕ → ℕ → Call → Type 0
Spares i until now (write n) = Unit
Spares i until now (claim runtime role minutes) = Unit
Spares i until now (complete j result) = j ≢ i
Spares i until now (release j increment) = j ≢ i
Spares i until now reclaim = now ≤ until

row_at-append :
    (i : ℕ) (rows : List WorkItem) (x r : WorkItem)
    → row_at i rows ≡ some r
    → row_at i (rows ++ x ∷ []) ≡ some r
unfolding row_at fetchone select
row_at-append i [] x r h = cc
row_at-append i (s ∷ rows) x r h = ground (arith, row_at-append i rows x r)

-- An insertion leaves the rows or adds one behind them.
insert_plain-cases :
    (now : ℕ) (n : NewItem) (t : WorkTable)
    → ((insert_plain now n t).0.rows ≡ t.rows) ⊎ ((insert_plain now n t).0 ≡ append_row now n t)
unfolding insert_plain
insert_plain-cases now n t =
    go
      (checks_pass n && not (key_taken n.dedup_key t.rows) && run_known t.runs n.originating_run_id)
      refl
  where
    go :
        (b : Bool)
        → (checks_pass n
            && not (key_taken n.dedup_key t.rows)
            && run_known t.runs n.originating_run_id)
          ≡ b
        → ((insert_plain now n t).0.rows ≡ t.rows) ⊎ ((insert_plain now n t).0 ≡ append_row now n t)
    go true e = inr (rw e)
    go false e = inl (rw e)

insert_or_find-cases :
    (now : ℕ) (k : String) (n : NewItem) (t : WorkTable)
    → ((insert_or_find now k n t).0.rows ≡ t.rows)
      ⊎ ((insert_or_find now k n t).0 ≡ append_row now n t)
unfolding insert_or_find skip_id
insert_or_find-cases now k n t = elim (Bool-cases (checks_pass n)) [
  | inl c ↦ elim (Bool-cases (key_taken (some k) t.rows)) [
    | inl f ↦ inl (rw (c, f))
    | inr f ↦ elim (Bool-cases (run_known t.runs n.originating_run_id)) [
      | inl g ↦ inr (rw (c, f, g))
      | inr g ↦ inl (rw (c, f, g))
    ]
  ]
  | inr c ↦ inl (rw c)
]

module _ (i until : ℕ) (r : WorkItem) (is_held : r.status ≡ claimed) where
  added-held :
      (now : ℕ) (n : NewItem) (t t' : WorkTable)
      → (t'.rows ≡ t.rows) ⊎ (t' ≡ append_row now n t)
      → row_at i t.rows ≡ some r
      → row_at i t'.rows ≡ some r
  added-held now n t t' (inl e) h = rw e h
  added-held now n t t' (inr e) h =
      rw e (unfold append_row in row_at-append i t.rows (new_row now (t.last_id + 1) n) r h)

  free_key-held :
      (now : ℕ) (k : String) (t : WorkTable)
      → row_at i t.rows ≡ some r
      → row_at i (free_key now k t).rows ≡ some r
  unfolding free_key
  free_key-held now k t h =
      rw
        (
          row_at-update_where (λ x. has_key k x && is_completed x.status)
              (λ x. record x { dedup_key = none; updated_at = now }) (λ x. refl) i t.rows,
          h,
        )
        (ground arith)

  write_by_key-held :
      (now : ℕ) (o : Option String) (n : NewItem) (t : WorkTable)
      → row_at i t.rows ≡ some r
      → row_at i (write_by_key now o n t).0.rows ≡ some r
  unfolding write_by_key
  write_by_key-held now none n t h = added-held now n t _ (insert_plain-cases now n t) h
  write_by_key-held now (some k) n t h = elim (Bool-cases (non_empty k)) [
    | inl e ↦ rw e (
        added-held now n (free_key now k t) _ (insert_or_find-cases now k n (free_key now k t))
          (free_key-held now k t h))
    | inr e ↦ rw e (added-held now n t _ (insert_plain-cases now n t) h)
  ]

  claim_work_item-held :
      (now : ℕ) (runtime role : String) (minutes : ℕ) (t : WorkTable)
      → IsValid t
      → row_at i t.rows ≡ some r
      → row_at i (claim_work_item now runtime role minutes t).0.rows ≡ some r
  unfolding claim_work_item
  claim_work_item-held now runtime role minutes t v h =
      go (first_by_priority (select (claimable role) t.rows)) refl
    where
      go :
          (o : Option WorkItem)
          → first_by_priority (select (claimable role) t.rows) ≡ o
          → row_at i (claim_id now runtime (now + minutes * minute) o t).0.rows ≡ some r
      go none e = unfold claim_id in h
      go (some b) e =
          let (c, at, _) = chosen now runtime role minutes t v b e in
          unfold claim_id claimable in
          rw (rows_after_claim now runtime role minutes t v b i at)
            (ground (arith, pending_of_claimable role b c))

  -- A call that spares the row leaves it as it is.
  perform-held :
      (now : ℕ) (c : Call) (t : WorkTable)
      → r.claim_lease_until ≡ some until
      → IsValid t
      → Spares i until now c
      → row_at i t.rows ≡ some r
      → row_at i (perform now c t).rows ≡ some r
  unfolding perform write_work_item complete_work_item release_work_item reclaim_expired_leases
  perform-held now (write n) t l v s h = write_by_key-held now n.dedup_key n t h
  perform-held now (claim runtime role minutes) t l v s h =
      claim_work_item-held now runtime role minutes t v h
  perform-held now (complete j result) t l v s h =
      rw
        (row_at-update_id_if i j (λ x. is_claimed x.status) (mark_completed now result) t.rows
          (λ x. unfold mark_completed in refl))
        (ground arith)
  perform-held now (release j increment) t l v s h =
      rw
        (row_at-update_id i j (mark_released now increment) t.rows
          (λ x. (mark_released-keeps now increment x).0))
        (ground arith)
  perform-held now reclaim t l v s h =
      rw
        (
          row_at-update_where (lease_expired now) (mark_released now false)
              (λ x. (mark_released-keeps now false x).0) i t.rows,
          h,
        )
        (unfold lease_expired in ground arith)

abbrev pub AllSpare : ℕ → ℕ → List (ℕ × Call) → Type 0
AllSpare i until [] = Unit
AllSpare i until ((now, c) ∷ cs) = Spares i until now c × AllSpare i until cs

-- A claimed row with a lease stays exactly as it is through any sequence of calls in which nobody
-- completes or releases its id and no reclaim runs at a time after the end of the lease; writes and
-- claims, of any role, may stand among them.
pub claim_is_held :
    (i until : ℕ) (r : WorkItem) (cs : List (ℕ × Call)) (t : WorkTable)
    → r.status ≡ claimed
    → r.claim_lease_until ≡ some until
    → IsValid t
    → AllSpare i until cs
    → row_at i t.rows ≡ some r
    → row_at i (history cs t).rows ≡ some r
unfolding history
claim_is_held i until r [] t s l v a h = h
claim_is_held i until r ((now, c) ∷ cs) t s l v a h =
    claim_is_held i until r cs (perform now c t) s l (perform-IsValid now c t v) a.1
      (perform-held i until r s now c t l v a.0 h)
