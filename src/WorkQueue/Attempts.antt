-- ===== src/WorkQueue/Attempts.antt =====
-- What `complete_work_item` and `release_work_item` of work_queue.py do to an item.
use mathlib.Core.Option
use mathlib.Core.Bool.{false≢true}
use mathlib.Core.List.{Memᴰ}
use mathlib.Core.Path.{subst}
use developer_assistant.Prelude.{
  ◌<◌, ◌++◌, ℕ, zero, suc, ◌+◌, String, ◌≡◌, refl, Bool, true, false, ◌&&◌, some, List, [], ◌∷◌,
  arith, Bool-cases, inl, inr, sym, ◌∙◌, All, Apart, ◌==◌, if◌then◌else◌, leb, non_empty, All-map,
}
use developer_assistant.Prelude.Table.{update_where, select, fetchone, All-update_where}
use developer_assistant.WorkQueue.{
  pending, claimed, completed, failed, WorkItem, WorkTable, NewItem, ok, with_id, has_key,
  is_claimed, complete_work_item, mark_completed, mark_released, release_work_item, write_work_item,
  checks_pass, run_known,
}
use developer_assistant.WorkQueue.Rows.{
  row_at, row_at-update_id, row_at-update_id_if, fetchone-returning, fetchone-returning_if, only_if,
  All-Memᴰ,
}
use developer_assistant.WorkQueue.Invariant.{
  IsValid, NoClash, complete_work_item-IsValid, mark_released-keeps,
}
use developer_assistant.WorkQueue.Dedup.{write_adds_row, IsRequested}

-- In a valid table a completion returns the row of the id with the result if that row is claimed,
-- and nothing otherwise; the row of the id changes only then, and no other row changes.
pub complete_work_item_lem :
    (now item : ℕ) (result : String) (t : WorkTable)
    → IsValid t
    → let (t', r) = complete_work_item now item result t in
      (r ≡ only_if (λ x. is_claimed x.status) (mark_completed now result) (row_at item t.rows))
      × ((i : ℕ)
          → row_at i t'.rows ≡ (
              if i == item
              then Option.map
                  (λ x. if is_claimed x.status then mark_completed now result x else x)
                  (row_at item t.rows)
              else row_at i t.rows))
unfolding complete_work_item
complete_work_item_lem now item result t v = (
  fetchone-returning_if item (λ x. is_claimed x.status) (mark_completed now result) t.rows
      v.ordered,
  λ i.
      row_at-update_id_if i item (λ x. is_claimed x.status) (mark_completed now result) t.rows
        (λ x. unfold mark_completed in refl),
)

row_at-release :
    (now i item : ℕ) (increment : Bool) (t : WorkTable)
    → row_at i (release_work_item now item increment t).0.rows ≡ (
        if i == item
        then Option.map (mark_released now increment) (row_at item t.rows)
        else row_at i t.rows)
unfolding release_work_item
row_at-release now i item increment t =
    row_at-update_id i item (mark_released now increment) t.rows
      (λ x. (mark_released-keeps now increment x).0)

returned-release :
    (now item : ℕ) (increment : Bool) (t : WorkTable)
    → (release_work_item now item increment t).1
      ≡ Option.map (mark_released now increment) (row_at item t.rows)
unfolding release_work_item
returned-release now item increment t = fetchone-returning item (mark_released now increment) t.rows

-- A release without an increment turns a completed row back into a pending one that any runtime
-- may claim, with its result still in it.
pub release_reopens_completed :
    (now item : ℕ) (t : WorkTable) (r : WorkItem)
    → row_at item t.rows ≡ some r
    → r.status ≡ completed
    → (r' : WorkItem) × ((release_work_item now item false t).1 ≡ some r')
      × (row_at item (release_work_item now item false t).0.rows ≡ some r')
      × (r'.status ≡ pending)
      × (r'.result_json ≡ r.result_json)
release_reopens_completed now item t r h s = (
  mark_released now false r,
  rw (returned-release now item false t, h),
  rw (row_at-release now item item false t, h) (ground arith),
  unfold mark_released in refl,
  unfold mark_released in refl,
)

-- `n` releases of one item, each counted as an attempt.
pub strikes : ℕ → ℕ → ℕ → WorkTable → WorkTable
strikes zero now item t = t
strikes (suc n) now item t = strikes n now item (release_work_item now item true t).0

struck :
    (now item : ℕ) (t : WorkTable) (r : WorkItem)
    → row_at item t.rows ≡ some r
    → row_at item (release_work_item now item true t).0.rows ≡ some (mark_released now true r)
struck now item t r h = rw (row_at-release now item item true t, h) (ground arith)

-- After one or more counted releases an item has that many more attempts, keeps its limit, and is
-- failed exactly when its attempts have reached the limit; before that it is pending.
pub failed_at_limit :
    (n now item : ℕ) (t : WorkTable) (r : WorkItem)
    → row_at item t.rows ≡ some r
    → (r' : WorkItem) × (row_at item (strikes (suc n) now item t).rows ≡ some r')
      × (r'.attempt_count ≡ r.attempt_count + suc n)
      × (r'.max_attempts ≡ r.max_attempts)
      × (r'.status ≡ (if leb r.max_attempts (r.attempt_count + suc n) then failed else pending))
unfolding strikes mark_released
failed_at_limit zero now item t r h =
    (mark_released now true r, struck now item t r h, ground arith, refl, ground arith)
failed_at_limit (suc n) now item t r h =
    let t' = (release_work_item now item true t).0 in
    let (r', at, count, limit, status) =
      failed_at_limit n now item t' (mark_released now true r) (struck now item t r h) in
    (r', at, omega (arith, count), limit, later n r r' status)
  where
    later :
        (m : ℕ) (x x' : WorkItem)
        → x'.status ≡ (if leb x.max_attempts (x.attempt_count + 1 + suc m) then failed else pending)
        → x'.status
          ≡ (if leb x.max_attempts (x.attempt_count + suc (suc m)) then failed else pending)
    later m x x' e = ground arith

Memᴰ-row_at : (i : ℕ) (r : WorkItem) (rows : List WorkItem) → row_at i rows ≡ some r → Memᴰ r rows
unfolding row_at fetchone select
Memᴰ-row_at i r [] h = cc
Memᴰ-row_at i r (x ∷ rows) h = elim (Bool-cases (with_id i x)) [
  | inl e ↦ Memᴰ.head (ground arith)
  | inr e ↦ Memᴰ.tail (Memᴰ-row_at i r rows (ground arith))
]

mark_completed-has_key :
    (now : ℕ) (k result : String) (x : WorkItem) → has_key k (mark_completed now result x) ≡ false
unfolding mark_completed has_key
mark_completed-has_key now k result x = refl

-- The rows behind one with the key have it not, and so has one before it.
behind :
    (k : String) (r x : WorkItem) (rows : List WorkItem)
    → All (NoClash x) rows
    → x ≡ r
    → has_key k r ≡ true
    → All (λ y. has_key k y ≡ false) rows
behind k r x rows a e g =
    All-map (NoClash x) (λ y. has_key k y ≡ false) rows
      (λ y no. no k (subst (λ z. has_key k z ≡ true) (sym e) g)) a

before :
    (k : String) (r x : WorkItem) (rows : List WorkItem)
    → All (NoClash x) rows
    → Memᴰ r rows
    → has_key k r ≡ true
    → has_key k x ≡ false
before k r x rows a m g = elim (Bool-cases (has_key k x)) [
  | inl e ↦ absurd (false≢true (sym (All-Memᴰ (NoClash x) a m k e) ∙ g))
  | inr e ↦ e
]

cleared :
    (now i : ℕ) (k result : String) (r : WorkItem) (rows : List WorkItem)
    → Apart NoClash rows
    → row_at i rows ≡ some r
    → r.status ≡ claimed
    → has_key k r ≡ true
    → All
        (λ x. has_key k x ≡ false)
        (update_where (λ x. with_id i x && is_claimed x.status) (mark_completed now result) rows)
unfolding update_where row_at fetchone select
cleared now i k result r [] a h s g = tt
cleared now i k result r (x ∷ rows) a h s g = elim (Bool-cases (with_id i x)) [
  | inl e ↦
      let same : x ≡ r = ground arith in
      let is_held : is_claimed x.status ≡ true = ground arith in
      (
        rw (e, is_held) (mark_completed-has_key now k result x),
        All-update_where (λ y. has_key k y ≡ false) (λ y. with_id i y && is_claimed y.status)
            (mark_completed now result) rows (λ y _ _. mark_completed-has_key now k result y)
            (behind k r x rows a.0 same g),
      )
  | inr e ↦
      let later : row_at i rows ≡ some r = ground arith in
      (
        rw e (before k r x rows a.0 (Memᴰ-row_at i r rows later) g),
        cleared now i k result r rows a.1 later s g,
      )
]

-- In a valid table, once the claimed item that holds a key is completed, a well-formed request with
-- that key, for a known run, adds a new row behind the others again: it has an id above theirs,
-- which is returned, and it is pending, for the role, kind, payload, priority and key of the request.
pub key_is_reusable :
    (now now' item : ℕ) (k result : String) (n : NewItem) (r : WorkItem) (t : WorkTable)
    → IsValid t
    → row_at item t.rows ≡ some r
    → r.status ≡ claimed
    → has_key k r ≡ true
    → non_empty k ≡ true
    → n.dedup_key ≡ some k
    → checks_pass n ≡ true
    → run_known t.runs n.originating_run_id ≡ true
    → let t' = (complete_work_item now item result t).0 in
      (new : WorkItem) × ((write_work_item now' n t').0.rows ≡ t'.rows ++ new ∷ [])
      × ((write_work_item now' n t').1 ≡ ok new.id)
      × All (λ x. x.id < new.id) t'.rows
      × IsRequested n new
key_is_reusable now now' item k result n r t v h s g ne e c run =
    let kept = complete_work_item-IsValid now item result t v in
    unfold complete_work_item in
    let (new, rows, id, above, asked, _, _) =
      write_adds_row now' now' k n n (complete_work_item now item result t).0 kept ne e c run
        (cleared now item k result r t.rows v.keys_apart h s g) e c in
    (new, rows, id, above, asked)
