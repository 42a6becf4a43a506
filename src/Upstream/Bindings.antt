-- ===== src/Upstream/Bindings.antt =====
-- founder_identity.py: what a binding and its revocation leave behind, over every sequence of calls.
use developer_assistant.Prelude.{
  ℕ, ◌+◌, String, true, false, ◌&&◌, Option, none, some, List, [], ◌∷◌, ◌++◌, ◌==◌, if◌then◌else◌,
  is_some, Option-cases, Bool-cases, inl, inr, length, ltb, ◌≡◌, refl, ap, ◌∙◌, arith, eq_iff, All,
  All-append,
}
use developer_assistant.Prelude.Table.{update_where, select, returning, fetchone}
use developer_assistant.Prelude.Rows.{select-append_other, fetchone-append}
use developer_assistant.Prelude.Results.{ok}
use developer_assistant.Upstream.Identity.{
  Binding, BindingTable, has_identity, is_active, holder, new_binding, held_id,
  bind_founder_identity, founder_of, lookup_founder_by_upstream_identity, mark_revoked,
  revoke_founder_binding, Call, bind, revoke, perform, history,
}

-- No row of the identity is active, and the identity is held.
pub record IsRevoked (adapter user : String) (t : BindingTable) : Type 0 where
  pub held : is_some (holder adapter user t) ≡ true
  pub inactive : All (λ r. (has_identity adapter user r && is_active r) ≡ false) t.rows

module _ (adapter user : String) where
  none_active :
      (rows : List Binding)
      → All (λ r. (has_identity adapter user r && is_active r) ≡ false) rows
      → fetchone (select (λ r. has_identity adapter user r && is_active r) rows) ≡ none
  unfolding select fetchone
  none_active [] h = refl
  none_active (r ∷ rows) h = rw h.0 (none_active rows h.1)

  revoked_lookup :
      (t : BindingTable)
      → IsRevoked adapter user t
      → lookup_founder_by_upstream_identity adapter user t ≡ none
  unfolding lookup_founder_by_upstream_identity
  revoked_lookup t h = ap founder_of (none_active t.rows h.inactive)

  revoke-All :
      (now : ℕ) (rows : List Binding)
      → All
          (λ r. (has_identity adapter user r && is_active r) ≡ false)
          (update_where (λ r. has_identity adapter user r && is_active r) (mark_revoked now) rows)
  unfolding update_where has_identity is_active mark_revoked
  revoke-All now [] = tt
  revoke-All now (r ∷ rows) = (ground arith, revoke-All now rows)

  held_after :
      (now : ℕ) (a u : String) (rows : List Binding)
      → is_some (fetchone (select (has_identity adapter user) rows)) ≡ true
      → is_some (
          fetchone (
            select
              (has_identity adapter user)
              (update_where (λ r. has_identity a u r && is_active r) (mark_revoked now) rows)))
        ≡ true
  unfolding update_where select fetchone has_identity is_active mark_revoked
  held_after now a u [] h = cc
  held_after now a u (r ∷ rows) h = ground (arith, held_after now a u rows)

  held_of_returned :
      (now : ℕ) (rows : List Binding)
      → ltb 0 (
          length
            (returning (λ r. has_identity adapter user r && is_active r) (mark_revoked now) rows))
        ≡ true
      → is_some (fetchone (select (has_identity adapter user) rows)) ≡ true
  unfolding returning select fetchone
  held_of_returned now [] h = cc
  held_of_returned now (r ∷ rows) h = ground (arith, held_of_returned now rows)

  revoke-IsRevoked :
      (now : ℕ) (t : BindingTable)
      → (revoke_founder_binding now adapter user t).1 ≡ true
      → IsRevoked adapter user (revoke_founder_binding now adapter user t).0
  unfolding revoke_founder_binding holder
  revoke-IsRevoked now t h = record {
    held = held_after now adapter user t.rows (held_of_returned now t.rows h);
    inactive = revoke-All now t.rows;
  }

  still_inactive :
      (now : ℕ) (a u : String) (rows : List Binding)
      → All (λ r. (has_identity adapter user r && is_active r) ≡ false) rows
      → All
          (λ r. (has_identity adapter user r && is_active r) ≡ false)
          (update_where (λ r. has_identity a u r && is_active r) (mark_revoked now) rows)
  unfolding update_where has_identity is_active mark_revoked
  still_inactive now a u [] h = tt
  still_inactive now a u (r ∷ rows) h = (ground (arith, h.0), still_inactive now a u rows h.1)

  other_identity :
      (a u : String) (t : BindingTable) (r : Binding)
      → r.adapter_id ≡ a
      → r.upstream_user_id ≡ u
      → holder a u t ≡ none
      → is_some (holder adapter user t) ≡ true
      → has_identity adapter user r ≡ false
  unfolding has_identity
  other_identity a u t r ha hu e held = elim (Bool-cases (has_identity adapter user r)) [
    | inr g ↦ g
    | inl g ↦
        ground (arith, eq_iff r.adapter_id adapter, eq_iff r.upstream_user_id user, same_holder)
  ]
    where
      same_holder : a ≡ adapter → u ≡ user → holder adapter user t ≡ none
      same_holder p q = rw (← p, ← q) e

  bind-IsRevoked :
      (now previous : ℕ) (f a u : String) (name : Option String) (t : BindingTable)
      → IsRevoked adapter user t
      → IsRevoked adapter user (bind_founder_identity now previous f a u name t).0
  unfolding bind_founder_identity new_binding holder
  bind-IsRevoked now previous f a u name t h = elim (Option-cases (holder a u t)) [
    | inr (r, e) ↦ rw (e, bind_founder_identity) (record { held = h.held; inactive = h.inactive })
    | inl e ↦
        rw (e, bind_founder_identity)
          (appended (new_binding now (t.last_id + 1) f a u name) (
            other_identity a u t (new_binding now (t.last_id + 1) f a u name) new_adapter new_user e
              h.held))
  ]
    where
      new_adapter : (new_binding now (t.last_id + 1) f a u name).adapter_id ≡ a
      new_adapter = refl

      new_user : (new_binding now (t.last_id + 1) f a u name).upstream_user_id ≡ u
      new_user = refl

      appended :
          (r : Binding)
          → has_identity adapter user r ≡ false
          → IsRevoked adapter user (record t { rows = t.rows ++ r ∷ []; last_id = t.last_id + 1 })
      appended r g = record {
        held = rw (holder, select-append_other (has_identity adapter user) t.rows r g) h.held;
        inactive =
            All-append (λ s. (has_identity adapter user s && is_active s) ≡ false) t.rows h.inactive
              (rw g refl);
      }

  perform-IsRevoked :
      (c : Call) (t : BindingTable)
      → IsRevoked adapter user t
      → IsRevoked adapter user (perform c t)
  unfolding perform revoke_founder_binding holder
  perform-IsRevoked (revoke now a u) t h = record {
    held = held_after now a u t.rows h.held;
    inactive = still_inactive now a u t.rows h.inactive;
  }
  perform-IsRevoked (bind now previous f a u name) t h = bind-IsRevoked now previous f a u name t h

  history-IsRevoked :
      (cs : List Call) (t : BindingTable)
      → IsRevoked adapter user t
      → IsRevoked adapter user (history cs t)
  unfolding history
  history-IsRevoked [] t h = h
  history-IsRevoked (c ∷ cs) t h = history-IsRevoked cs (perform c t) (perform-IsRevoked c t h)

  -- After a revocation that found an active binding, no later sequence of bindings and revocations
  -- makes the identity known again.
  pub revocation_is_final :
      (now : ℕ) (t : BindingTable) (cs : List Call)
      → (revoke_founder_binding now adapter user t).1 ≡ true
      → lookup_founder_by_upstream_identity adapter user
          (history cs (revoke_founder_binding now adapter user t).0)
        ≡ none
  revocation_is_final now t cs h = revoked_lookup _ (
      history-IsRevoked cs (revoke_founder_binding now adapter user t).0 (revoke-IsRevoked now t h))

  module _ (now previous : ℕ) (founder : String) (name : Option String) (t : BindingTable) where
    no_active_holder :
        (rows : List Binding)
        → fetchone (select (has_identity adapter user) rows) ≡ none
        → fetchone (select (λ r. has_identity adapter user r && is_active r) rows) ≡ none
    unfolding select fetchone
    no_active_holder [] h = refl
    no_active_holder (r ∷ rows) h = ground (arith, no_active_holder rows)

    -- A binding of an identity that no row holds makes its founder known under the next id. Otherwise
    -- it leaves every row as it is and takes one id of the sequence, and it returns the id of the
    -- connection's last insertion if there is one, and that of the row that holds the identity if not.
    pub bind_founder_lem :
        (holder adapter user t ≡ none
          → (lookup_founder_by_upstream_identity adapter user
                (bind_founder_identity now previous founder adapter user name t).0
              ≡ some founder)
            × ((bind_founder_identity now previous founder adapter user name t).1
                ≡ ok (t.last_id + 1)))
        × ((r : Binding)
            → holder adapter user t ≡ some r
            → bind_founder_identity now previous founder adapter user name t ≡ (
              record t { last_id = t.last_id + 1 },
              ok (if previous == 0 then r.id else previous),
            ))
    unfolding bind_founder_identity held_id holder lookup_founder_by_upstream_identity has_identity
        is_active new_binding
    bind_founder_lem = (
      fresh,
      λ r e.
          rw (e, bind_founder_identity)
            (ap (λ x. (record t { last_id = t.last_id + 1 }, x)) (found r)),
    )
      where
        found :
            (r : Binding)
            → held_id previous (some r) ≡ ok (if previous == 0 then r.id else previous)
        found r = elim (Bool-cases (previous == 0)) [
          | inl g ↦ rw (g, held_id) refl
          | inr g ↦ rw (g, held_id) refl
        ]

        is_new :
            (has_identity adapter user (new_binding now (t.last_id + 1) founder adapter user name)
              && is_active (new_binding now (t.last_id + 1) founder adapter user name))
            ≡ true
        is_new = ground (arith, (eq_iff adapter adapter).1 refl, (eq_iff user user).1 refl)

        found_new :
            holder adapter user t ≡ none
            → fetchone (
                select
                  (λ r. has_identity adapter user r && is_active r)
                  (t.rows ++ new_binding now (t.last_id + 1) founder adapter user name ∷ []))
              ≡ some (new_binding now (t.last_id + 1) founder adapter user name)
        found_new e =
            fetchone-append (λ r. has_identity adapter user r && is_active r) t.rows
              (new_binding now (t.last_id + 1) founder adapter user name) is_new
            ∙ rw (no_active_holder t.rows e) refl

        fresh :
            holder adapter user t ≡ none
            → (lookup_founder_by_upstream_identity adapter user
                  (bind_founder_identity now previous founder adapter user name t).0
                ≡ some founder)
              × ((bind_founder_identity now previous founder adapter user name t).1
                  ≡ ok (t.last_id + 1))
        fresh e = rw (e, bind_founder_identity) (ap founder_of (found_new e), refl)
