-- ===== src/Escalations/Reading.antt =====
-- What `read_pending_escalations` of escalations.py returns, and when a prompt comes back.
use mathlib.Core.List.{Permᴰ}
use mathlib.Core.List.Permᴰ
use mathlib.Core.Path.{subst}
use developer_assistant.Prelude.{
  ℕ, zero, suc, ◌+◌, ◌<◌, String, ◌≡◌, refl, ap, sym, ◌++◌, ◌∙◌, Bool, true, false, ◌&&◌, Option,
  none, some, List, [], ◌∷◌, arith, Bool-cases, inl, inr, All, Apart, All-map, ◌==◌, if◌then◌else◌,
  leb, length,
}
use developer_assistant.Prelude.Table.{select, find_row-update_where}
use developer_assistant.Escalations.{
  surfaced, Escalation, EscalationTable, is_pending, precedes, insert_sorted, order_rows, take,
  past_cooldown, status_wanted, readable, read_pending_escalations, mark_surfaced,
  mark_escalation_surfaced, cooldown,
}
use developer_assistant.Escalations.Lifecycle.{row_at}

precedes_trans :
    (a b c : Escalation) → precedes a b ≡ true → precedes b c ≡ true → precedes a c ≡ true
unfolding precedes
precedes_trans a b c h k = ground arith

precedes_total : (a b : Escalation) → precedes a b ≡ false → precedes b a ≡ true
unfolding precedes
precedes_total a b h = ground arith

abbrev pub InOrder : Escalation → Escalation → Type 0
InOrder a b = precedes a b ≡ true

module _ (P : Escalation → Type 0) where
  All-insert_sorted :
      (r : Escalation) (rows : List Escalation) → P r → All P rows → All P (insert_sorted r rows)
  unfolding insert_sorted
  All-insert_sorted r [] p h = (p, tt)
  All-insert_sorted r (s ∷ rows) p h = elim (Bool-cases (precedes r s)) [
    | inl e ↦ rw e (p, h)
    | inr e ↦ rw e (h.0, All-insert_sorted r rows p h.1)
  ]

  All-order_rows : (rows : List Escalation) → All P rows → All P (order_rows rows)
  unfolding order_rows
  All-order_rows [] h = tt
  All-order_rows (r ∷ rows) h = All-insert_sorted r (order_rows rows) h.0 (All-order_rows rows h.1)

  All-take : (n : ℕ) (rows : List Escalation) → All P rows → All P (take n rows)
  unfolding take
  All-take zero rows h = tt
  All-take (suc n) [] h = tt
  All-take (suc n) (r ∷ rows) h = (h.0, All-take n rows h.1)

insert_sorted-InOrder :
    (r : Escalation) (rows : List Escalation)
    → Apart InOrder rows
    → Apart InOrder (insert_sorted r rows)
unfolding insert_sorted
insert_sorted-InOrder r [] h = (tt, tt)
insert_sorted-InOrder r (s ∷ rows) h = elim (Bool-cases (precedes r s)) [
  | inl e ↦
      rw e ((e, All-map (InOrder s) (InOrder r) rows (λ x k. precedes_trans r s x e k) h.0), h)
  | inr e ↦ rw e (
    All-insert_sorted (InOrder s) r rows (precedes_total r s e) h.0,
    insert_sorted-InOrder r rows h.1,
  )
]

order_rows-InOrder : (rows : List Escalation) → Apart InOrder (order_rows rows)
unfolding order_rows
order_rows-InOrder [] = tt
order_rows-InOrder (r ∷ rows) = insert_sorted-InOrder r (order_rows rows) (order_rows-InOrder rows)

length-insert_sorted :
    (r : Escalation) (rows : List Escalation) → length (insert_sorted r rows) ≡ suc (length rows)
unfolding insert_sorted
length-insert_sorted r [] = refl
length-insert_sorted r (s ∷ rows) = ground (arith, length-insert_sorted r rows)

length-order_rows : (rows : List Escalation) → length (order_rows rows) ≡ length rows
unfolding order_rows
length-order_rows [] = refl
length-order_rows (r ∷ rows) =
    omega (arith, length-insert_sorted r (order_rows rows), length-order_rows rows)

length-take :
    (n : ℕ) (rows : List Escalation)
    → length (take n rows) ≡ (if leb n (length rows) then n else length rows)
unfolding take
length-take zero rows = ground arith
length-take (suc n) [] = ground arith
length-take (suc n) (r ∷ rows) = ground (arith, length-take n rows)

All-select :
    (q : Escalation → Bool) (rows : List Escalation) → All (λ r. q r ≡ true) (select q rows)
unfolding select
All-select q [] = tt
All-select q (r ∷ rows) = elim (Bool-cases (q r)) [
  | inl e ↦ rw e (e, All-select q rows)
  | inr e ↦ rw e (All-select q rows)
]

insert_sorted-Permᴰ :
    (r : Escalation) (rows : List Escalation) → Permᴰ (insert_sorted r rows) (r ∷ rows)
unfolding insert_sorted
insert_sorted-Permᴰ r [] = Permᴰ.refl (r ∷ [])
insert_sorted-Permᴰ r (s ∷ rows) = elim (Bool-cases (precedes r s)) [
  | inl e ↦ rw e (Permᴰ.refl (r ∷ s ∷ rows))
  | inr e ↦ rw e (Permᴰ.trans (Permᴰ.cons refl (insert_sorted-Permᴰ r rows)) (Permᴰ.swap refl refl))
]

order_rows-Permᴰ : (rows : List Escalation) → Permᴰ (order_rows rows) rows
unfolding order_rows
order_rows-Permᴰ [] = Permᴰ.nil
order_rows-Permᴰ (r ∷ rows) =
    Permᴰ.trans (insert_sorted-Permᴰ r (order_rows rows)) (Permᴰ.cons refl (order_rows-Permᴰ rows))

beyond : ℕ → List Escalation → List Escalation
beyond zero rows = rows
beyond (suc n) [] = []
beyond (suc n) (r ∷ rows) = beyond n rows

take-beyond : (n : ℕ) (rows : List Escalation) → take n rows ++ beyond n rows ≡ rows
unfolding take beyond
take-beyond zero rows = refl
take-beyond (suc n) [] = refl
take-beyond (suc n) (r ∷ rows) = ap (λ x. r ∷ x) (take-beyond n rows)

-- A read returns the first rows, as many as there are up to the limit, of those that are in a wanted
-- status and were never surfaced or were surfaced more than five minutes before: it returns each as
-- often as it stands in the table, and together with the rows that it leaves out they are all such
-- rows of the table, in the order of urgency and then of id.
pub read_pending_lem :
    (now : ℕ) (statuses : Option (List String)) (limit : ℕ) (t : EscalationTable)
    → let found = select (readable now statuses) t.rows in
      let rows = read_pending_escalations now statuses limit t in
      All (λ r. readable now statuses r ≡ true) rows
      × (length rows ≡ (if leb limit (length found) then limit else length found))
      × (left_out : List Escalation) × Permᴰ (rows ++ left_out) found
      × Apart InOrder (rows ++ left_out)
unfolding read_pending_escalations
read_pending_lem now statuses limit t =
    let found = select (readable now statuses) t.rows in
    let whole = sym (take-beyond limit (order_rows found)) in
    (
      All-take (λ r. readable now statuses r ≡ true) limit (order_rows found)
          (All-order_rows (λ r. readable now statuses r ≡ true) found
            (All-select (readable now statuses) t.rows)),
      ground (arith, length-take limit (order_rows found), length-order_rows found),
      beyond limit (order_rows found),
      subst (λ l. Permᴰ l found) whole (order_rows-Permᴰ found),
      subst (Apart InOrder) whole (order_rows-InOrder found),
    )

past_of_late :
    (now s : ℕ) (r : Escalation)
    → r.surfaced_at ≡ some s
    → s + cooldown < now
    → past_cooldown now r ≡ true
unfolding past_cooldown
past_of_late now s r at late = ground arith

wanted_of_surfaced : status_wanted none surfaced ≡ true
unfolding status_wanted
wanted_of_surfaced = refl

both : (a b : Bool) → a ≡ true → b ≡ true → (a && b) ≡ true
both a b h k = ground arith

-- A surfaced row whose five minutes are over is readable at every later time, and marking it as
-- surfaced once more leaves it as it is: its surfacing time is never renewed.
pub surfaced_stays_readable :
    (now now' i s : ℕ) (message : Option String) (r : Escalation) (t : EscalationTable)
    → row_at i t.rows ≡ some r
    → r.status ≡ surfaced
    → r.surfaced_at ≡ some s
    → s + cooldown < now'
    → (row_at i (mark_escalation_surfaced now i message t).0.rows ≡ some r)
      × (readable now' none r ≡ true)
unfolding mark_escalation_surfaced readable
surfaced_stays_readable now now' i s message r t h st at late = (
  rw
      (
        find_row-update_where (λ x. x.id) (λ x. (x.id == i) && is_pending x.status)
            (mark_surfaced now message) (λ x. unfold mark_surfaced in refl) i t.rows,
        h,
      )
      (ground arith),
  both (status_wanted none r.status) (past_cooldown now' r)
      (ap (status_wanted none) st ∙ wanted_of_surfaced) (past_of_late now' s r at late),
)
