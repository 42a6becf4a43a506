-- ===== src/Escalations/Lifecycle.antt =====
-- The life of a row of `escalations` under the calls of escalations.py.
use developer_assistant.Prelude.{
  ℕ, ◌+◌, ◌≤◌, ◌<◌, String, ◌≡◌, ◌⊎◌, refl, Bool, true, false, ◌&&◌, Option, none, some, List, [],
  ◌∷◌, arith, Bool-cases, inl, inr, ap, sym, ◌∙◌, All, Apart, All-map, All-append, Apart-append,
  ◌==◌, is_some, one_of,
}
use developer_assistant.Prelude.Table.{
  update_where, fetchone, returning, find_row, find_row-update_where, find_row-append,
  fetchone-returning_row, when_row, key_of_row, All-update_where, Apart-update_where,
}
use developer_assistant.Escalations.{
  Status, pending, surfaced, approved, denied, Escalation, EscalationTable, NewEscalation, ok, Call,
  write, surface, resolve, expire, is_pending, is_open, checks_pass, new_row, write_escalation,
  mark_surfaced, mark_escalation_surfaced, mark_resolved, verdict_status, resolve_as,
  resolve_escalation, is_old, mark_expired, expire_old_escalations, perform, history, empty_table,
}

abbrev pub row_at : ℕ → List Escalation → Option Escalation
row_at = find_row (λ r. r.id)

abbrev pub is_resolved : Status → Bool
is_resolved approved = true
is_resolved denied = true
is_resolved _ = false

pub record RowValid (last : ℕ) (r : Escalation) : Type 0 where
  pub id_known : r.id ≤ last
  pub known_urgency : one_of r.urgency ("low" ∷ "medium" ∷ "high" ∷ []) ≡ true
  pub answered : is_some r.resolved_at ≡ is_resolved r.status
  pub with_response : is_some r.founder_response ≡ is_resolved r.status
  pub shown : r.status ≡ surfaced → is_some r.surfaced_at ≡ true
  pub fresh : r.status ≡ pending → r.surfaced_at ≡ none

pub record IsValid (t : EscalationTable) : Type 0 where
  pub rows_valid : All (RowValid t.last_id) t.rows
  pub ordered : Apart (λ a b. a.id < b.id) t.rows

-- An UPDATE that keeps the ids and each row's part of the invariant keeps the invariant.
module _ (p : Escalation → Bool) (f : Escalation → Escalation)
    (same_id : (r : Escalation) → (f r).id ≡ r.id) where
  update_where-IsValid :
      (t : EscalationTable)
      → ((r : Escalation) → p r ≡ true → RowValid t.last_id r → RowValid t.last_id (f r))
      → IsValid t
      → IsValid (record t { rows = update_where p f t.rows })
  update_where-IsValid t keep v = record {
    rows_valid = All-update_where (RowValid t.last_id) p f t.rows keep v.rows_valid;
    ordered =
        Apart-update_where (λ a b. a.id < b.id) p f (λ x y h. ground (arith, same_id x))
          (λ x y h. ground (arith, same_id y)) t.rows v.ordered;
  }

mark_surfaced-RowValid :
    (last now : ℕ) (message : Option String) (r : Escalation)
    → is_pending r.status ≡ true
    → RowValid last r
    → RowValid last (mark_surfaced now message r)
unfolding mark_surfaced one_of
mark_surfaced-RowValid last now message r p v = ground arith

mark_resolved-RowValid :
    (last now : ℕ) (s : Status) (response : String) (r : Escalation)
    → is_resolved s ≡ true
    → RowValid last r
    → RowValid last (mark_resolved now s response r)
unfolding mark_resolved one_of
mark_resolved-RowValid last now s response r p v = ground arith

mark_expired-RowValid :
    (last now : ℕ) (r : Escalation)
    → is_open r.status ≡ true
    → RowValid last r
    → RowValid last (mark_expired now r)
unfolding mark_expired one_of
mark_expired-RowValid last now r p v = ground arith

new_row-RowValid :
    (now last : ℕ) (n : NewEscalation) (t : EscalationTable)
    → checks_pass n t ≡ true
    → RowValid (last + 1) (new_row now (last + 1) n)
unfolding new_row checks_pass
new_row-RowValid now last n t c = ground arith

write_escalation-IsValid :
    (now : ℕ) (n : NewEscalation) (t : EscalationTable)
    → IsValid t
    → IsValid (write_escalation now n t).0
unfolding write_escalation
write_escalation-IsValid now n t v = elim (Bool-cases (checks_pass n t)) [
  | inl c ↦
      let row = new_row now (t.last_id + 1) n in
      rw c (record {
        rows_valid =
            All-append (RowValid (t.last_id + 1)) t.rows
              (All-map (RowValid t.last_id) (RowValid (t.last_id + 1)) t.rows
                (λ r u. wider t.last_id r u) v.rows_valid)
              (new_row-RowValid now t.last_id n t c);
        ordered =
            Apart-append (λ a b. a.id < b.id) t.rows row v.ordered
              (All-map (RowValid t.last_id) (λ r. r.id < t.last_id + 1) t.rows
                (λ r u. ground (arith, u.id_known)) v.rows_valid);
      })
  | inr c ↦ rw c v
]
  where
    wider : (last : ℕ) (r : Escalation) → RowValid last r → RowValid (last + 1) r
    wider last r u = record {
      id_known = omega (arith, u.id_known);
      known_urgency = u.known_urgency;
      answered = u.answered;
      with_response = u.with_response;
      shown = u.shown;
      fresh = u.fresh;
    }

resolve_as-IsValid :
    (now i : ℕ) (s : Option Status) (response : String) (t : EscalationTable)
    → ((x : Status) → s ≡ some x → is_resolved x ≡ true)
    → IsValid t
    → IsValid (resolve_as now i s response t).0
unfolding resolve_as
resolve_as-IsValid now i none response t h v = v
resolve_as-IsValid now i (some s) response t h v =
    update_where-IsValid (λ r. (r.id == i) && is_open r.status) (mark_resolved now s response)
      (λ r. unfold mark_resolved in refl) t
      (λ r _ u. mark_resolved-RowValid t.last_id now s response r (h s refl) u) v

resolved_verdict : (v : String) (x : Status) → verdict_status v ≡ some x → is_resolved x ≡ true
unfolding verdict_status
resolved_verdict v x h = ground arith

pub perform-IsValid :
    (now : ℕ) (c : Call) (t : EscalationTable) → IsValid t → IsValid (perform now c t)
unfolding perform mark_escalation_surfaced resolve_escalation expire_old_escalations
perform-IsValid now (write n) t v = write_escalation-IsValid now n t v
perform-IsValid now (surface i message) t v =
    update_where-IsValid (λ r. (r.id == i) && is_pending r.status) (mark_surfaced now message)
      (λ r. unfold mark_surfaced in refl) t
      (λ r p u. mark_surfaced-RowValid t.last_id now message r (ground arith) u) v
perform-IsValid now (resolve i verdict response) t v =
    resolve_as-IsValid now i (verdict_status verdict) response t (resolved_verdict verdict) v
perform-IsValid now (expire days) t v =
    update_where-IsValid (is_old now days) (mark_expired now) (λ r. unfold mark_expired in refl) t
      (λ r p u. mark_expired-RowValid t.last_id now r (unfold is_old in ground arith) u) v

history-IsValid : (cs : List (ℕ × Call)) (t : EscalationTable) → IsValid t → IsValid (history cs t)
unfolding history
history-IsValid [] t v = v
history-IsValid ((now, c) ∷ cs) t v =
    history-IsValid cs (perform now c t) (perform-IsValid now c t v)

-- After any sequence of calls of escalations.py, made from the empty table, ids rise and never pass
-- the sequence, and each row has a known urgency, a resolution time and a response of the founder
-- exactly while it is approved or denied, a surfacing time when surfaced, and none while pending.
pub empty_history-IsValid :
    (work_ids : List ℕ) (cs : List (ℕ × Call)) → IsValid (history cs (empty_table work_ids))
empty_history-IsValid work_ids cs =
    history-IsValid cs (empty_table work_ids) (record { rows_valid = tt; ordered = tt })

-- A closed row is touched by no call.
closed_step :
    (now i : ℕ) (c : Call) (r : Escalation) (t : EscalationTable)
    → is_open r.status ≡ false
    → row_at i t.rows ≡ some r
    → row_at i (perform now c t).rows ≡ some r
unfolding perform mark_escalation_surfaced resolve_escalation expire_old_escalations
    write_escalation
closed_step now i (write n) r t s h = elim (Bool-cases (checks_pass n t)) [
  | inl c ↦
      rw (c, perform) (find_row-append (λ x. x.id) i t.rows (new_row now (t.last_id + 1) n) r h)
  | inr c ↦ rw (c, perform) h
]
closed_step now i (surface j message) r t s h =
    rw
      (
        find_row-update_where (λ x. x.id) (λ x. (x.id == j) && is_pending x.status)
            (mark_surfaced now message) (λ x. unfold mark_surfaced in refl) i t.rows,
        h,
      )
      (ground arith)
closed_step now i (resolve j verdict response) r t s h = go (verdict_status verdict)
  where
    go : (o : Option Status) → row_at i (resolve_as now j o response t).0.rows ≡ some r
    go none = unfold resolve_as in h
    go (some x) =
        unfold resolve_as in
        rw
          (
            find_row-update_where (λ y. y.id) (λ y. (y.id == j) && is_open y.status)
                (mark_resolved now x response) (λ y. unfold mark_resolved in refl) i t.rows,
            h,
          )
          (ground arith)
closed_step now i (expire days) r t s h =
    rw
      (
        find_row-update_where (λ x. x.id) (is_old now days) (mark_expired now)
            (λ x. unfold mark_expired in refl) i t.rows,
        h,
      )
      (unfold is_old in ground arith)

-- An approved, denied or expired escalation never changes again, whatever calls follow.
pub closed_is_final :
    (i : ℕ) (r : Escalation) (cs : List (ℕ × Call)) (t : EscalationTable)
    → is_open r.status ≡ false
    → row_at i t.rows ≡ some r
    → row_at i (history cs t).rows ≡ some r
unfolding history
closed_is_final i r [] t s h = h
closed_is_final i r ((now, c) ∷ cs) t s h =
    closed_is_final i r cs (perform now c t) s (closed_step now i c r t s h)

verdict_cases :
    (v : String) (x : Status) → verdict_status v ≡ some x → (x ≡ approved) ⊎ (x ≡ denied)
unfolding verdict_status
verdict_cases v x h = ground arith

-- What a resolution that returned a row did to the table.
resolved_row :
    (now i : ℕ) (s : Status) (response : String) (t : EscalationTable) (r : Escalation)
    (o : Option Escalation)
    → row_at i t.rows ≡ o
    → when_row (λ x. is_open x.status) (mark_resolved now s response) o ≡ some r
    → (r.status ≡ s)
      × (r.founder_response ≡ some response)
      × (row_at i (
            update_where
              (λ x. (x.id == i) && is_open x.status)
              (mark_resolved now s response)
              t.rows)
          ≡ some r)
unfolding mark_resolved
resolved_row now i s response t r none e h = cc
resolved_row now i s response t r (some b) e h = (
  ground arith,
  ground arith,
  rw
      (
        find_row-update_where (λ x. x.id) (λ x. (x.id == i) && is_open x.status)
            (mark_resolved now s response) (λ x. refl) i t.rows,
        e,
      )
      (ground (arith, key_of_row (λ x. x.id) i t.rows b)),
)

resolve_as_final :
    (now i : ℕ) (s : Status) (response : String) (t : EscalationTable) (r : Escalation)
    → IsValid t
    → (resolve_as now i (some s) response t).1 ≡ ok (some r)
    → (r.status ≡ s)
      × (r.founder_response ≡ some response)
      × (row_at i (resolve_as now i (some s) response t).0.rows ≡ some r)
unfolding resolve_as
resolve_as_final now i s response t r v h =
    resolved_row now i s response t r (row_at i t.rows) refl (
      sym (
        fetchone-returning_row (λ x. x.id) i (λ x. is_open x.status) (mark_resolved now s response)
          t.rows v.ordered)
      ∙ returned)
  where
    returned :
        fetchone
          (returning (λ x. (x.id == i) && is_open x.status) (mark_resolved now s response) t.rows)
        ≡ some r
    returned = cc

-- In a valid table, when a resolution returns a row, that row is approved or denied and holds the
-- founder's response, and it stands in the table unchanged through every later sequence of calls.
pub resolve_is_final :
    (now i : ℕ) (verdict response : String) (t : EscalationTable) (r : Escalation)
    (cs : List (ℕ × Call))
    → IsValid t
    → (resolve_escalation now i verdict response t).1 ≡ ok (some r)
    → ((r.status ≡ approved) ⊎ (r.status ≡ denied))
      × (r.founder_response ≡ some response)
      × (row_at i (history cs (resolve_escalation now i verdict response t).0).rows ≡ some r)
unfolding resolve_escalation
resolve_is_final now i verdict response t r cs v h = go (verdict_status verdict) refl h
  where
    closed : (x : Status) → (x ≡ approved) ⊎ (x ≡ denied) → is_open x ≡ false
    closed x c = ground arith

    go :
        (o : Option Status)
        → verdict_status verdict ≡ o
        → (resolve_as now i o response t).1 ≡ ok (some r)
        → ((r.status ≡ approved) ⊎ (r.status ≡ denied))
          × (r.founder_response ≡ some response)
          × (row_at i (history cs (resolve_as now i o response t).0).rows ≡ some r)
    go none e g = absurd (unfold resolve_as in cc)
    go (some s) e g =
        let (status, answer, at) = resolve_as_final now i s response t r v g in
        let c = verdict_cases verdict s e in
        (
          rw status c,
          answer,
          closed_is_final i r cs (resolve_as now i (some s) response t).0
              (ap is_open status ∙ closed s c) at,
        )
