-- ===== src/WorkQueue/Rows.antt =====
-- Reading a row of `work_items` by its id, and how the statements of work_queue.py change it.
use mathlib.Core.Option
use mathlib.Core.List.{Memᴰ}
use mathlib.Core.Path.{subst}
use developer_assistant.Prelude.{
  ℕ, ◌<◌, ◌≡◌, refl, Bool, true, false, ◌&&◌, Option, none, some, List, [], ◌∷◌, arith, Bool-cases,
  inl, inr, ap, sym, All, Apart, if◌then◌else◌, ◌==◌, All-map,
}
use developer_assistant.Prelude.Table.{update_where, select, fetchone, returning}
use developer_assistant.WorkQueue.{WorkItem, with_id, precedes, first_by_priority, better}
use developer_assistant.WorkQueue.Invariant.{ById}

-- SELECT * … WHERE id = ?
unfoldable pub row_at : ℕ → List WorkItem → Option WorkItem
row_at i rows = fetchone (select (with_id i) rows)

module _ (p : WorkItem → Bool) (f : WorkItem → WorkItem)
    (same_id : (r : WorkItem) → (f r).id ≡ r.id) where
  -- What an UPDATE makes of the row with an id.
  pub row_at-update_where :
      (i : ℕ) (rows : List WorkItem)
      → row_at i (update_where p f rows) ≡ Option.map (λ r. if p r then f r else r) (row_at i rows)
  unfolding row_at fetchone select update_where
  row_at-update_where i [] = refl
  row_at-update_where i (r ∷ rows) = ground (arith, same_id r, row_at-update_where i rows)

-- The rows after an UPDATE of one id, and after one with a further condition.
pub row_at-update_id :
    (i j : ℕ) (f : WorkItem → WorkItem) (rows : List WorkItem)
    → ((r : WorkItem) → (f r).id ≡ r.id)
    → row_at i (update_where (with_id j) f rows)
      ≡ (if i == j then Option.map f (row_at j rows) else row_at i rows)
unfolding row_at fetchone select update_where
row_at-update_id i j f [] same_id = ground arith
row_at-update_id i j f (r ∷ rows) same_id =
    ground (arith, same_id r, row_at-update_id i j f rows same_id)

pub row_at-update_id_if :
    (i j : ℕ) (q : WorkItem → Bool) (f : WorkItem → WorkItem) (rows : List WorkItem)
    → ((r : WorkItem) → (f r).id ≡ r.id)
    → row_at i (update_where (λ r. with_id j r && q r) f rows)
      ≡ (if i == j then Option.map (λ r. if q r then f r else r) (row_at j rows) else row_at i rows)
unfolding row_at fetchone select update_where
row_at-update_id_if i j q f [] same_id = ground arith
row_at-update_id_if i j q f (r ∷ rows) same_id =
    ground (arith, same_id r, row_at-update_id_if i j q f rows same_id)

pub id-row_at : (i : ℕ) (r : WorkItem) (rows : List WorkItem) → row_at i rows ≡ some r → r.id ≡ i
unfolding row_at fetchone select
id-row_at i r [] h = cc
id-row_at i r (s ∷ rows) h = ground (arith, id-row_at i r rows)

-- The row that `UPDATE … WHERE id = ? RETURNING *` gives back.
pub fetchone-returning :
    (i : ℕ) (f : WorkItem → WorkItem) (rows : List WorkItem)
    → fetchone (returning (with_id i) f rows) ≡ Option.map f (row_at i rows)
unfolding row_at fetchone select returning
fetchone-returning i f [] = refl
fetchone-returning i f (r ∷ rows) = ground (arith, fetchone-returning i f rows)

-- With a further condition, ids being unique.
above :
    (i : ℕ) (q : WorkItem → Bool) (f : WorkItem → WorkItem) (rows : List WorkItem)
    → All (λ r. i < r.id) rows
    → fetchone (returning (λ r. with_id i r && q r) f rows) ≡ none
unfolding fetchone returning
above i q f [] h = refl
above i q f (r ∷ rows) h = ground (arith, above i q f rows h.1)

abbrev pub only_if : (WorkItem → Bool) → (WorkItem → WorkItem) → Option WorkItem → Option WorkItem
only_if q f none = none
only_if q f (some r) = if q r then some (f r) else none

pub fetchone-returning_if :
    (i : ℕ) (q : WorkItem → Bool) (f : WorkItem → WorkItem) (rows : List WorkItem)
    → Apart ById rows
    → fetchone (returning (λ r. with_id i r && q r) f rows) ≡ only_if q f (row_at i rows)
unfolding row_at fetchone select returning
fetchone-returning_if i q f [] h = refl
fetchone-returning_if i q f (r ∷ rows) h = elim (Bool-cases (with_id i r)) [
  | inl e ↦ elim (Bool-cases (q r)) [
    | inl g ↦ ground arith
    | inr g ↦ ground (
      arith,
      above i q f rows (All-map (λ s. r.id < s.id) (λ s. i < s.id) rows (λ s g. ground arith) h.0),
    )
  ]
  | inr e ↦ ground (arith, fetchone-returning_if i q f rows h.1)
]

-- A selected row is the row of its id.
pub All-Memᴰ {κ} :
    (P : WorkItem → Type κ) {b : WorkItem} {rows : List WorkItem} → All P rows → Memᴰ b rows → P b
All-Memᴰ P h (Memᴰ.head e) = subst P (sym e) h.0
All-Memᴰ P h (Memᴰ.tail m) = All-Memᴰ P h.1 m

Memᴰ-select :
    (q : WorkItem → Bool) (b : WorkItem) (rows : List WorkItem)
    → Memᴰ b (select q rows)
    → Memᴰ b rows × (q b ≡ true)
unfolding select
Memᴰ-select q b [] m = elim m [ ]
Memᴰ-select q b (r ∷ rows) m = elim (Bool-cases (q r)) [
  | inl e ↦ first e (Memᴰ-select q b rows) (rw e at m)
  | inr e ↦ let (m', g) = Memᴰ-select q b rows (rw e at m) in (Memᴰ.tail m', g)
]
  where
    first :
        q r ≡ true
        → (Memᴰ b (select q rows) → Memᴰ b rows × (q b ≡ true))
        → Memᴰ b (r ∷ select q rows)
        → Memᴰ b (r ∷ rows) × (q b ≡ true)
    first e ih (Memᴰ.head h) = (Memᴰ.head h, rw h e)
    first e ih (Memᴰ.tail m') = (Memᴰ.tail (ih m').0, (ih m').1)

pub row_at-Memᴰ :
    (b : WorkItem) (rows : List WorkItem)
    → Apart ById rows
    → Memᴰ b rows
    → row_at b.id rows ≡ some b
unfolding row_at fetchone select
row_at-Memᴰ b [] h m = elim m [ ]
row_at-Memᴰ b (r ∷ rows) h (Memᴰ.head e) =
    subst (λ s. row_at s.id (r ∷ rows) ≡ some s) (sym e) (ground arith)
row_at-Memᴰ b (r ∷ rows) h (Memᴰ.tail m) =
    ground (arith, All-Memᴰ (λ s. r.id < s.id) h.0 m, row_at-Memᴰ b rows h.1 m)

pub row_at-select :
    (q : WorkItem → Bool) (b : WorkItem) (rows : List WorkItem)
    → Apart ById rows
    → Memᴰ b (select q rows)
    → (q b ≡ true) × (row_at b.id rows ≡ some b)
row_at-select q b rows h m = let (m', e) = Memᴰ-select q b rows m in (e, row_at-Memᴰ b rows h m')

precedes_trans :
    (a b c : WorkItem) → precedes a b ≡ true → precedes b c ≡ true → precedes a c ≡ true
unfolding precedes
precedes_trans a b c h k = ground arith

precedes_total : (a b : WorkItem) → precedes a b ≡ false → precedes b a ≡ true
unfolding precedes
precedes_total a b h = ground arith

precedes_self : (a : WorkItem) → precedes a a ≡ true
unfolding precedes
precedes_self a = ground arith

abbrev First : WorkItem → List WorkItem → Type 0
First d rows = Memᴰ d rows × All (λ x. precedes d x ≡ true) rows

-- The first row of the order is one of the rows, and stands before or at each.
pub first_by_priority_lem :
    (rows : List WorkItem) (b : WorkItem)
    → first_by_priority rows ≡ some b
    → Memᴰ b rows × All (λ r. precedes b r ≡ true) rows
unfolding first_by_priority
first_by_priority_lem [] b h = cc
first_by_priority_lem (r ∷ []) b h =
    let e : b ≡ r = (cc) in (Memᴰ.head e, (rw e (precedes_self r), tt))
first_by_priority_lem (r ∷ s ∷ rows) b h =
    go (better s (first_by_priority rows)) refl (first_by_priority_lem (s ∷ rows))
  where
    go :
        (c : WorkItem)
        → better s (first_by_priority rows) ≡ c
        → ((d : WorkItem)
            → first_by_priority (s ∷ rows) ≡ some d
            → Memᴰ d (s ∷ rows) × All (λ x. precedes d x ≡ true) (s ∷ rows))
        → Memᴰ b (r ∷ s ∷ rows) × All (λ x. precedes b x ≡ true) (r ∷ s ∷ rows)
    go c e ih = elim (Bool-cases (precedes r c)) [
      | inl g ↦
          subst (λ d. First d (r ∷ s ∷ rows)) (ground arith)
            (
              Memᴰ.head refl,
              (
                precedes_self r,
                All-map (λ x. precedes c x ≡ true) (λ x. precedes r x ≡ true) (s ∷ rows)
                    (λ x k. precedes_trans r c x g k) (ih c (ap some e)).1,
              ),
            )
      | inr g ↦
          subst (λ d. First d (r ∷ s ∷ rows)) (ground arith)
            (Memᴰ.tail (ih c (ap some e)).0, (precedes_total r c g, (ih c (ap some e)).1))
    ]

pub first_by_priority-none : (rows : List WorkItem) → first_by_priority rows ≡ none → rows ≡ []
unfolding first_by_priority
first_by_priority-none [] h = refl
first_by_priority-none (r ∷ rows) h = cc
