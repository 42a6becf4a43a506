-- ===== src/WorkQueue/Keys.antt =====
-- The rows of work_queue.py that hold a dedup key: in a valid table one at most, and an open one.
use developer_assistant.Prelude.{
  ℕ, String, ◌≡◌, refl, true, false, ◌&&◌, none, some, List, [], ◌∷◌, ◌++◌, arith, Bool-cases, inl,
  inr, sym, ◌∙◌, All, Apart, eq_iff,
}
use mathlib.Core.Bool.{false≢true}
use mathlib.Core.List.{Memᴰ}
use mathlib.Core.Path.{subst}
use developer_assistant.Prelude.Table.{update_where, select, fetchone}
use developer_assistant.WorkQueue.{
  WorkItem, WorkTable, NewItem, ok, is_open, has_key, is_completed, key_taken, free_key, first_id,
  new_row,
}
use developer_assistant.WorkQueue.Rows.{All-Memᴰ}
use developer_assistant.WorkQueue.Invariant.{IsValid, RowValid, NoClash}

-- A completed row has no key, so there is no key to free.
free_rows :
    (now last : ℕ) (k : String) (rows : List WorkItem)
    → All (RowValid last) rows
    → update_where
        (λ r. has_key k r && is_completed r.status)
        (λ r. record r { dedup_key = none; updated_at = now })
        rows
      ≡ rows
unfolding update_where has_key
free_rows now last k [] v = refl
free_rows now last k (r ∷ rows) v = ground (arith, free_rows now last k rows v.1)

pub free_key-noop : (now : ℕ) (k : String) (t : WorkTable) → IsValid t → free_key now k t ≡ t
unfolding free_key
free_key-noop now k t v = rw (free_rows now t.last_id k t.rows v.rows_valid)

-- The rows with a key: one at most, and an open one.
no_other :
    (k : String) (rows : List WorkItem)
    → All (λ r. has_key k r ≡ false) rows
    → select (has_key k) rows ≡ []
unfolding select
no_other k [] h = refl
no_other k (r ∷ rows) h = ground (arith, no_other k rows h.1)

pub open_rows :
    (k : String) (last : ℕ) (rows : List WorkItem)
    → All (RowValid last) rows
    → select (λ r. has_key k r && is_open r.status) rows ≡ select (has_key k) rows
unfolding select has_key
open_rows k last [] v = refl
open_rows k last (r ∷ rows) v = ground (arith, open_rows k last rows v.1)

pub holder :
    (k : String) (r : WorkItem) (rows : List WorkItem)
    → Apart NoClash rows
    → Memᴰ r rows
    → has_key k r ≡ true
    → fetchone (select (has_key k) rows) ≡ some r
unfolding fetchone select
holder k r [] a m h = elim m [ ]
holder k r (x ∷ rows) a (Memᴰ.head e) h =
    subst (λ y. has_key k y ≡ true → fetchone (select (has_key k) (x ∷ rows)) ≡ some y) (sym e)
      (λ g. ground arith) h
holder k r (x ∷ rows) a (Memᴰ.tail m) h = elim (Bool-cases (has_key k x)) [
  | inl e ↦ absurd (false≢true (sym (All-Memᴰ (NoClash x) a.0 m k e) ∙ h))
  | inr e ↦ rw e (holder k r rows a.1 m h)
]

pub found_id :
    (rows : List WorkItem) (r : WorkItem) → fetchone rows ≡ some r → first_id rows ≡ ok r.id
unfolding fetchone first_id
found_id [] r h = cc
found_id (s ∷ rows) r h = ground arith

pub taken_by :
    (k : String) (r : WorkItem) (rows : List WorkItem)
    → fetchone (select (has_key k) rows) ≡ some r
    → key_taken (some k) rows ≡ true
unfolding key_taken
taken_by k r rows h = rw h

abbrev pub Taken : String → List WorkItem → Type 0
Taken k rows = (r : WorkItem) × Memᴰ r rows × (has_key k r ≡ true)

pub find_holder :
    (k : String) (rows : List WorkItem) → key_taken (some k) rows ≡ true → Taken k rows
unfolding key_taken select fetchone
find_holder k [] h = cc
find_holder k (r ∷ rows) h = elim (Bool-cases (has_key k r)) [
  | inl e ↦ (r, Memᴰ.head refl, e)
  | inr e ↦ let (s, m, g) = find_holder k rows (ground arith) in (s, Memᴰ.tail m, g)
]

pub none_holds :
    (k : String) (rows : List WorkItem)
    → All (λ r. has_key k r ≡ false) rows
    → key_taken (some k) rows ≡ false
unfolding key_taken fetchone
none_holds k rows h = rw (no_other k rows h)

pub last_is_member : (rows : List WorkItem) (r : WorkItem) → Memᴰ r (rows ++ r ∷ [])
last_is_member [] r = Memᴰ.head refl
last_is_member (x ∷ rows) r = Memᴰ.tail (last_is_member rows r)

pub taken_after :
    (now i : ℕ) (k : String) (n : NewItem) (rows : List WorkItem)
    → n.dedup_key ≡ some k
    → key_taken (some k) (rows ++ new_row now i n ∷ []) ≡ true
unfolding key_taken select fetchone has_key new_row
taken_after now i k n [] e = rw e (ground (arith, eq_iff k k))
taken_after now i k n (r ∷ rows) e = ground (arith, taken_after now i k n rows e)

pub new_row-has_key :
    (now i : ℕ) (k : String) (n : NewItem)
    → n.dedup_key ≡ some k
    → has_key k (new_row now i n) ≡ true
unfolding has_key new_row
new_row-has_key now i k n e = rw e ((eq_iff k k).1 refl)
