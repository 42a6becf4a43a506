-- ===== src/WorkQueue/Invariant.antt =====
-- What holds of the table `work_items` between two calls of work_queue.py.
use developer_assistant.Prelude.{
  ℕ, ◌+◌, ◌*◌, ◌≤◌, ◌<◌, String, ◌≡◌, refl, Bool, true, false, ◌&&◌, Option, none, some, List, [],
  ◌∷◌, arith, Bool-cases, inl, inr, ap, str_eq, eq_iff, non_empty, is_some, All, Apart, All-append,
  Apart-append, All-map, All-const, ◌≢◌, ◌⊎◌,
}
use developer_assistant.Prelude.Table.{
  update_where, select, fetchone, All-update_where, Apart-update_where,
}
use developer_assistant.WorkQueue.{
  claimed, completed, failed, released, WorkItem, WorkTable, NewItem, Call, write, claim, complete,
  release, reclaim, is_claimed, is_completed, has_key, key_taken, new_row, append_row, skip_id,
  free_key, insert_or_find, insert_plain, write_by_key, write_work_item, first_by_priority,
  claimable, mark_claimed, with_id, claim_id, claim_work_item, mark_completed, complete_work_item,
  mark_released, release_work_item, lease_expired, reclaim_expired_leases, perform, history,
  empty_table, checks_pass, run_known, minute,
}

pub record RowValid (last : ℕ) (r : WorkItem) : Type 0 where
  pub id_known : r.id ≤ last
  pub leased : is_some r.claim_lease_until ≡ is_claimed r.status
  pub owned : is_some r.claimed_by_runtime ≡ true → (r.status ≡ claimed) ⊎ (r.status ≡ completed)
  pub held : r.status ≡ claimed → is_some r.claimed_by_runtime ≡ true
  pub freed : r.status ≡ completed → r.dedup_key ≡ none
  pub exhausted : r.status ≡ failed → r.max_attempts ≤ r.attempt_count
  pub in_use : r.status ≢ released
  pub in_range : r.priority ≤ 100

abbrev pub ById : WorkItem → WorkItem → Type 0
ById a b = a.id < b.id

-- No dedup key stands in both rows.
abbrev pub NoClash : WorkItem → WorkItem → Type 0
NoClash a b = (k : String) → has_key k a ≡ true → has_key k b ≡ false

pub record IsValid (t : WorkTable) : Type 0 where
  pub rows_valid : All (RowValid t.last_id) t.rows
  pub ordered : Apart ById t.rows
  pub keys_apart : Apart NoClash t.rows

-- The three effects of the module on a row.
mark_claimed-RowValid :
    (last : ℕ) (runtime : String) (now lease : ℕ) (r : WorkItem)
    → RowValid last r
    → RowValid last (mark_claimed runtime now lease r)
unfolding mark_claimed
mark_claimed-RowValid last runtime now lease r v = ground arith

mark_completed-RowValid :
    (last now : ℕ) (result : String) (r : WorkItem)
    → RowValid last r
    → RowValid last (mark_completed now result r)
unfolding mark_completed
mark_completed-RowValid last now result r v = ground arith

mark_released-RowValid :
    (last now : ℕ) (increment : Bool) (r : WorkItem)
    → RowValid last r
    → RowValid last (mark_released now increment r)
unfolding mark_released
mark_released-RowValid last now true r v = ground arith
mark_released-RowValid last now false r v = ground arith

-- An UPDATE keeps the invariant if it keeps each row's part of it and its id, and adds no key.
module _ (p : WorkItem → Bool) (f : WorkItem → WorkItem)
    (same_id : (r : WorkItem) → (f r).id ≡ r.id)
    (no_new_key : (r : WorkItem) (k : String) → has_key k (f r) ≡ true → has_key k r ≡ true) where
  lost_key : (r : WorkItem) (k : String) → has_key k r ≡ false → has_key k (f r) ≡ false
  lost_key r k h = elim (Bool-cases (has_key k (f r))) [
    | inl e ↦ ground (arith, no_new_key r k e)
    | inr e ↦ e
  ]

  update_where-IsValid :
      (t : WorkTable)
      → ((r : WorkItem) → p r ≡ true → RowValid t.last_id r → RowValid t.last_id (f r))
      → IsValid t
      → IsValid (record t { rows = update_where p f t.rows })
  update_where-IsValid t keep v = record {
    rows_valid = All-update_where (RowValid t.last_id) p f t.rows keep v.rows_valid;
    ordered =
        Apart-update_where ById p f (λ x y h. ground (arith, same_id x))
          (λ x y h. ground (arith, same_id y)) t.rows v.ordered;
    keys_apart =
        Apart-update_where NoClash p f (λ x y h k e. h k (no_new_key x k e))
          (λ x y h k e. lost_key y k (h k e)) t.rows v.keys_apart;
  }

pub claim_work_item-IsValid :
    (now : ℕ) (runtime role : String) (minutes : ℕ) (t : WorkTable)
    → IsValid t
    → IsValid (claim_work_item now runtime role minutes t).0
unfolding claim_work_item has_key
claim_work_item-IsValid now runtime role minutes t v =
    go (first_by_priority (select (claimable role) t.rows))
  where
    lease : ℕ
    lease = now + minutes * minute

    go : (best : Option WorkItem) → IsValid (claim_id now runtime lease best t).0
    go none = v
    go (some best) =
        update_where-IsValid (with_id best.id) (mark_claimed runtime now lease) (λ r. refl)
          (λ r k e. e) t (λ r _ u. mark_claimed-RowValid t.last_id runtime now lease r u) v

pub complete_work_item-IsValid :
    (now item : ℕ) (result : String) (t : WorkTable)
    → IsValid t
    → IsValid (complete_work_item now item result t).0
unfolding complete_work_item has_key
complete_work_item-IsValid now item result t v =
    update_where-IsValid (λ r. with_id item r && is_claimed r.status) (mark_completed now result)
      (λ r. refl) (λ r k e. ground arith) t
      (λ r _ u. mark_completed-RowValid t.last_id now result r u) v

pub mark_released-keeps :
    (now : ℕ) (increment : Bool) (r : WorkItem)
    → ((mark_released now increment r).id ≡ r.id)
      × ((mark_released now increment r).dedup_key ≡ r.dedup_key)
unfolding mark_released
mark_released-keeps now true r = (refl, refl)
mark_released-keeps now false r = (refl, refl)

mark_released-has_key :
    (now : ℕ) (increment : Bool) (r : WorkItem) (k : String)
    → has_key k (mark_released now increment r) ≡ true
    → has_key k r ≡ true
unfolding has_key
mark_released-has_key now increment r k h = ground (arith, mark_released-keeps now increment r)

pub released-IsValid :
    (p : WorkItem → Bool) (now : ℕ) (increment : Bool) (t : WorkTable)
    → IsValid t
    → IsValid (record t { rows = update_where p (mark_released now increment) t.rows })
released-IsValid p now increment t v =
    update_where-IsValid p (mark_released now increment)
      (λ r. (mark_released-keeps now increment r).0) (mark_released-has_key now increment) t
      (λ r _ u. mark_released-RowValid t.last_id now increment r u) v

pub free_key-IsValid :
    (now : ℕ) (k : String) (t : WorkTable) → IsValid t → IsValid (free_key now k t)
unfolding free_key
free_key-IsValid now k t v =
    update_where-IsValid (λ r. has_key k r && is_completed r.status)
      (λ r. record r { dedup_key = none; updated_at = now }) (λ r. refl) (λ r j e. ground arith) t
      (λ r _ u. ground arith) v

-- A row under the next id, with a key that no row has.
absent_key :
    (k : String) (rows : List WorkItem)
    → key_taken (some k) rows ≡ false
    → All (λ r. has_key k r ≡ false) rows
unfolding key_taken fetchone select
absent_key k [] h = tt
absent_key k (r ∷ rows) h = elim (Bool-cases (has_key k r)) [
  | inl e ↦ ground arith
  | inr e ↦ (e, absent_key k rows (ground arith))
]

has_key-new_row :
    (now i : ℕ) (n : NewItem) (j : String)
    → has_key j (new_row now i n) ≡ true
    → n.dedup_key ≡ some j
unfolding has_key new_row
has_key-new_row now i n j h = grind (arith, eq_iff)

has_key-false :
    (k : String) (r : WorkItem) (o : Option String)
    → r.dedup_key ≡ o
    → o ≢ some k
    → has_key k r ≡ false
unfolding has_key
has_key-false k r none e h = rw e
has_key-false k r (some j) e h = elim (Bool-cases (str_eq j k)) [
  | inl same ↦ absurd (h (ap some ((eq_iff j k).0 same)))
  | inr other ↦ rw e other
]

key_free :
    (now i : ℕ) (n : NewItem) (rows : List WorkItem)
    → key_taken n.dedup_key rows ≡ false
    → All (λ r. NoClash r (new_row now i n)) rows
key_free now i n rows h = go n.dedup_key refl h
  where
    row : WorkItem
    row = new_row now i n

    kept : (o : Option String) → n.dedup_key ≡ o → row.dedup_key ≡ o
    kept o e = unfold new_row in e

    go :
        (o : Option String)
        → n.dedup_key ≡ o
        → key_taken o rows ≡ false
        → All (λ r. NoClash r row) rows
    go none e g =
        All-const (λ r. NoClash r row) rows
          (λ r j _. has_key-false j row none (kept none e) (λ c. cc))
    go (some k) e g =
        All-map (λ r. has_key k r ≡ false) (λ r. NoClash r row) rows
          (λ r off j on. has_key-false j row (some k) (kept (some k) e) (λ same. cc))
          (absent_key k rows g)

append_row-IsValid :
    (now : ℕ) (n : NewItem) (t : WorkTable)
    → checks_pass n ≡ true
    → key_taken n.dedup_key t.rows ≡ false
    → IsValid t
    → IsValid (append_row now n t)
unfolding append_row checks_pass
append_row-IsValid now n t c h v = record {
  rows_valid =
      All-append (RowValid (t.last_id + 1)) t.rows
        (All-map (RowValid t.last_id) (RowValid (t.last_id + 1)) t.rows (λ r u. ground arith)
          v.rows_valid)
        (ground arith);
  ordered = Apart-append ById t.rows (new_row now (t.last_id + 1) n) v.ordered (
      All-map (RowValid t.last_id) (λ r. r.id < t.last_id + 1) t.rows (λ r u. ground arith)
        v.rows_valid);
  keys_apart =
      Apart-append NoClash t.rows (new_row now (t.last_id + 1) n) v.keys_apart
        (key_free now (t.last_id + 1) n t.rows h);
}

insert_plain-IsValid :
    (now : ℕ) (n : NewItem) (t : WorkTable) → IsValid t → IsValid (insert_plain now n t).0
unfolding insert_plain
insert_plain-IsValid now n t v = elim (Bool-cases (checks_pass n)) [
  | inl c ↦ elim (Bool-cases (key_taken n.dedup_key t.rows)) [
    | inl k ↦ rw (c, k) v
    | inr k ↦ elim (Bool-cases (run_known t.runs n.originating_run_id)) [
      | inl r ↦ rw (c, k, r) (append_row-IsValid now n t c k v)
      | inr r ↦ rw (c, k, r) v
    ]
  ]
  | inr c ↦ rw c v
]

skip_id-IsValid : (t : WorkTable) → IsValid t → IsValid (skip_id t)
unfolding skip_id
skip_id-IsValid t v = record {
  rows_valid =
      All-map (RowValid t.last_id) (RowValid (t.last_id + 1)) t.rows (λ r u. ground arith)
        v.rows_valid;
  ordered = v.ordered;
  keys_apart = v.keys_apart;
}

insert_or_find-IsValid :
    (now : ℕ) (k : String) (n : NewItem) (t : WorkTable)
    → n.dedup_key ≡ some k
    → IsValid t
    → IsValid (insert_or_find now k n t).0
unfolding insert_or_find
insert_or_find-IsValid now k n t e v = elim (Bool-cases (checks_pass n)) [
  | inl c ↦ elim (Bool-cases (key_taken (some k) t.rows)) [
    | inl f ↦ rw (c, f) (skip_id-IsValid t v)
    | inr f ↦ elim (Bool-cases (run_known t.runs n.originating_run_id)) [
      | inl r ↦ rw (c, f, r) (append_row-IsValid now n t c (rw e f) v)
      | inr r ↦ rw (c, f, r) v
    ]
  ]
  | inr c ↦ rw c v
]

write_by_key-IsValid :
    (now : ℕ) (o : Option String) (n : NewItem) (t : WorkTable)
    → n.dedup_key ≡ o
    → IsValid t
    → IsValid (write_by_key now o n t).0
unfolding write_by_key
write_by_key-IsValid now none n t e v = insert_plain-IsValid now n t v
write_by_key-IsValid now (some k) n t e v = elim (Bool-cases (non_empty k)) [
  | inl f ↦ rw f (insert_or_find-IsValid now k n (free_key now k t) e (free_key-IsValid now k t v))
  | inr f ↦ rw f (insert_plain-IsValid now n t v)
]

-- Every call, refused or not, keeps the invariant.
pub perform-IsValid : (now : ℕ) (c : Call) (t : WorkTable) → IsValid t → IsValid (perform now c t)
unfolding perform write_work_item release_work_item reclaim_expired_leases
perform-IsValid now (write n) t v = write_by_key-IsValid now n.dedup_key n t refl v
perform-IsValid now (claim runtime role minutes) t v =
    claim_work_item-IsValid now runtime role minutes t v
perform-IsValid now (complete item result) t v = complete_work_item-IsValid now item result t v
perform-IsValid now (release item increment) t v = released-IsValid (with_id item) now increment t v
perform-IsValid now reclaim t v = released-IsValid (lease_expired now) now false t v

history-IsValid : (cs : List (ℕ × Call)) (t : WorkTable) → IsValid t → IsValid (history cs t)
unfolding history
history-IsValid [] t v = v
history-IsValid ((now, c) ∷ cs) t v =
    history-IsValid cs (perform now c t) (perform-IsValid now c t v)

-- After any sequence of calls of work_queue.py, at any times and with any arguments, made from the
-- empty table, the table satisfies `IsValid`: ids rise and never pass the sequence, no dedup key
-- stands in two rows, and each row has a lease exactly while it is claimed, a runtime if it is
-- claimed and only if it is claimed or completed, no dedup key when completed, its attempts used
-- up when failed, a priority of at most 100, and never the status `released`.
pub history-empty_table-IsValid :
    (runs : List String) (cs : List (ℕ × Call)) → IsValid (history cs (empty_table runs))
history-empty_table-IsValid runs cs =
    history-IsValid cs (empty_table runs)
      (record { rows_valid = tt; ordered = tt; keys_apart = tt })
