-- ===== src/WorkQueue/Dedup.antt =====
-- What a dedup key of `write_work_item` of work_queue.py promises.
use developer_assistant.Prelude.{
  ℕ, ◌+◌, String, ◌≡◌, ◌≢◌, refl, true, false, Option, none, some, List, [], ◌∷◌, ◌++◌, arith,
  Bool-cases, inl, inr, ◌<◌, All-map, ap, sym, ◌∙◌, All, eq_iff, non_empty,
}
use mathlib.Core.List.{Memᴰ}
use mathlib.Core.Path.{subst}
use developer_assistant.Prelude.Table.{select, fetchone}
use developer_assistant.WorkQueue.{
  WorkItem, WorkTable, NewItem, ok, err, integrity, no_row, has_key, key_taken, append_row,
  insert_or_find, insert_plain, write_by_key, write_work_item, checks_pass, run_known, first_id,
  new_row, skip_id, claimable, write, perform,
}
use developer_assistant.WorkQueue.Invariant.{IsValid, RowValid, perform-IsValid}
use developer_assistant.WorkQueue.Keys.{
  free_key-noop, open_rows, holder, found_id, taken_by, find_holder, none_holds, last_is_member,
  taken_after, new_row-has_key,
}

-- A write with a key that is not empty.
write_keyed :
    (now : ℕ) (k : String) (n : NewItem) (t : WorkTable)
    → IsValid t
    → non_empty k ≡ true
    → n.dedup_key ≡ some k
    → write_work_item now n t ≡ insert_or_find now k n t
unfolding write_work_item
write_keyed now k n t v ne e =
    ap (λ o. write_by_key now o n t) e
    ∙ (unfold write_by_key in rw ne (ap (insert_or_find now k n) (free_key-noop now k t v)))

-- In a valid table, when a row holds the key of a well-formed request, the write leaves every row
-- as it is, takes one id of the sequence, and returns the id of that row.
pub write_returns_holder :
    (now : ℕ) (k : String) (n : NewItem) (r : WorkItem) (t : WorkTable)
    → IsValid t
    → non_empty k ≡ true
    → n.dedup_key ≡ some k
    → checks_pass n ≡ true
    → Memᴰ r t.rows
    → has_key k r ≡ true
    → write_work_item now n t ≡ (record t { last_id = t.last_id + 1 }, ok r.id)
unfolding skip_id
write_returns_holder now k n r t v ne e c m h =
    let at = holder k r t.rows v.keys_apart m h in
    write_keyed now k n t v ne e
    ∙ (unfold insert_or_find in
        rw (c, taken_by k r t.rows at, open_rows k t.last_id t.rows v.rows_valid)
          (ap (λ x. (skip_id t, x)) (found_id (select (has_key k) t.rows) r at)))

write_appends :
    (now : ℕ) (k : String) (n : NewItem) (t : WorkTable)
    → IsValid t
    → non_empty k ≡ true
    → n.dedup_key ≡ some k
    → checks_pass n ≡ true
    → run_known t.runs n.originating_run_id ≡ true
    → All (λ r. has_key k r ≡ false) t.rows
    → write_work_item now n t ≡ (append_row now n t, ok (t.last_id + 1))
write_appends now k n t v ne e c g h =
    write_keyed now k n t v ne e ∙ (unfold insert_or_find in rw (c, none_holds k t.rows h, g))

module _ (now : ℕ) (n : NewItem) (t : WorkTable) where
  abbrev row : WorkItem
  row = new_row now (t.last_id + 1) n

  added : (append_row now n t).rows ≡ t.rows ++ row ∷ []
  unfolding append_row
  added = refl

  new_id : t.last_id + 1 ≡ row.id
  unfolding new_row
  new_id = refl

  below : (x : WorkItem) → RowValid t.last_id x → x.id < row.id
  unfolding new_row
  below x u = ground arith

  appended : Memᴰ row (append_row now n t).rows
  unfolding append_row
  appended = last_is_member t.rows row

-- What a request asks of its row.
abbrev pub IsRequested : NewItem → WorkItem → Type 0
IsRequested n r =
    (claimable n.target_role r ≡ true)
    × ((r.kind ≡ n.kind)
        × ((r.payload_json ≡ n.payload_json)
            × ((r.priority ≡ n.priority) × (r.dedup_key ≡ n.dedup_key))))

new_row-IsRequested : (now i : ℕ) (n : NewItem) → IsRequested n (new_row now i n)
unfolding new_row claimable
new_row-IsRequested now i n =
    (ground (arith, (eq_iff n.target_role n.target_role).1 refl), (refl, (refl, (refl, refl))))

-- In a valid table in which no row holds the key, a well-formed request for a known run adds one
-- row behind the others: it has an id above theirs, which is returned, and it is pending, for the
-- role, kind, payload, priority and key of the request. A second well-formed request with the key
-- returns the same id and adds no row.
pub write_adds_row :
    (now now' : ℕ) (k : String) (n m : NewItem) (t : WorkTable)
    → IsValid t
    → non_empty k ≡ true
    → n.dedup_key ≡ some k
    → checks_pass n ≡ true
    → run_known t.runs n.originating_run_id ≡ true
    → All (λ r. has_key k r ≡ false) t.rows
    → m.dedup_key ≡ some k
    → checks_pass m ≡ true
    → (r : WorkItem) × ((write_work_item now n t).0.rows ≡ t.rows ++ r ∷ [])
      × ((write_work_item now n t).1 ≡ ok r.id)
      × All (λ x. x.id < r.id) t.rows
      × IsRequested n r
      × ((write_work_item now' m (write_work_item now n t).0).1 ≡ ok r.id)
      × ((write_work_item now' m (write_work_item now n t).0).0.rows
          ≡ (write_work_item now n t).0.rows)
unfolding write_work_item perform
write_adds_row now now' k n m t v ne e c g h f d =
    let first = write_appends now k n t v ne e c g h in
    let again =
      write_returns_holder now' k m (row now n t) (append_row now n t)
        (subst IsValid (ap (λ p. p.0) first) (perform-IsValid now (write n) t v)) ne f d
        (appended now n t) (new_row-has_key now (t.last_id + 1) k n e) in
    rw first (
      row now n t,
      added now n t,
      ap ok (new_id now n t),
      All-map (RowValid t.last_id) (λ x. x.id < (row now n t).id) t.rows (λ x u. below now n t x u)
          v.rows_valid,
      new_row-IsRequested now (t.last_id + 1) n,
      ap (λ p. p.1) again,
      ap (λ p. p.0.rows) again,
    )

first_of_rows :
    (rows : List WorkItem) (r : WorkItem) → fetchone rows ≡ some r → first_id rows ≢ err no_row
unfolding fetchone first_id
first_of_rows [] r h = cc
first_of_rows (s ∷ rows) r h = λ e. cc

insert_or_find-ne-no_row :
    (now : ℕ) (k : String) (n : NewItem) (t : WorkTable)
    → IsValid t
    → (insert_or_find now k n t).1 ≢ err no_row
unfolding insert_or_find
insert_or_find-ne-no_row now k n t v = elim (Bool-cases (checks_pass n)) [
  | inl c ↦ elim (Bool-cases (key_taken (some k) t.rows)) [
    | inl f ↦
        let (r, m, h) = find_holder k t.rows f in
        rw (c, f, open_rows k t.last_id t.rows v.rows_valid)
          (first_of_rows (select (has_key k) t.rows) r (holder k r t.rows v.keys_apart m h))
    | inr f ↦ elim (Bool-cases (run_known t.runs n.originating_run_id)) [
      | inl g ↦ rw (c, f, g) (λ e. cc)
      | inr g ↦ rw (c, f, g) (λ e. cc)
    ]
  ]
  | inr c ↦ rw c (λ e. cc)
]

insert_plain-ne-no_row :
    (now : ℕ) (n : NewItem) (t : WorkTable) → (insert_plain now n t).1 ≢ err no_row
unfolding insert_plain
insert_plain-ne-no_row now n t e = ground arith

-- In a valid table no write, whatever its arguments, ends in the error of reading the id of a
-- missing row.
pub write_finds_row :
    (now : ℕ) (n : NewItem) (t : WorkTable) → IsValid t → (write_work_item now n t).1 ≢ err no_row
unfolding write_work_item
write_finds_row now n t v = go n.dedup_key
  where
    go : (o : Option String) → (write_by_key now o n t).1 ≢ err no_row
    go none = unfold write_by_key in insert_plain-ne-no_row now n t
    go (some k) = elim (Bool-cases (non_empty k)) [
      | inl ne ↦
          unfold write_by_key in
          rw ne (
            subst (λ x. (insert_or_find now k n x).1 ≢ err no_row) (sym (free_key-noop now k t v))
              (insert_or_find-ne-no_row now k n t v))
      | inr ne ↦ unfold write_by_key in rw ne (insert_plain-ne-no_row now n t)
    ]

write_empty :
    (now : ℕ) (n : NewItem) (t : WorkTable)
    → n.dedup_key ≡ some ""
    → write_work_item now n t ≡ insert_plain now n t
unfolding write_work_item
write_empty now n t e = ap (λ o. write_by_key now o n t) e ∙ (unfold write_by_key in refl)

accepted :
    (now i : ℕ) (n : NewItem) (t : WorkTable)
    → (insert_plain now n t).1 ≡ ok i
    → (insert_plain now n t).0 ≡ append_row now n t
unfolding insert_plain
accepted now i n t h = ground arith

refused :
    (now : ℕ) (n : NewItem) (t : WorkTable) (o : Option String)
    → n.dedup_key ≡ o
    → key_taken o t.rows ≡ true
    → (insert_plain now n t).1 ≡ err integrity
unfolding insert_plain
refused now n t o e h = ground (arith, ap (λ x. key_taken x t.rows) e)

-- The empty key is stored by a first write and is no key to a second one: after a write with the
-- empty key was accepted, every later write with it is refused by the UNIQUE constraint.
pub empty_key_refused :
    (now now' : ℕ) (n n' : NewItem) (t : WorkTable) (i : ℕ)
    → n.dedup_key ≡ some ""
    → n'.dedup_key ≡ some ""
    → (write_work_item now n t).1 ≡ ok i
    → (write_work_item now' n' (write_work_item now n t).0).1 ≡ err integrity
unfolding append_row
empty_key_refused now now' n n' t i e e' h =
    let t' = (write_work_item now n t).0 in
    let first = write_empty now n t e in
    let t'-eq : t' ≡ append_row now n t =
      ap (λ p. p.0) first ∙ accepted now i n t (ap (λ p. p.1) (sym first) ∙ h) in
    ap (λ p. p.1) (write_empty now' n' t' e')
    ∙ refused now' n' t' (some "") e' (rw t'-eq (taken_after now (t.last_id + 1) "" n t.rows e))
