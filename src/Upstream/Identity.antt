-- ===== src/Upstream/Identity.antt =====
-- founder_identity.py over the table founder_identity_bindings of
-- db/migrations/004_work_queue_and_escalations.sql. A time is a number of microseconds.
use developer_assistant.Prelude.{
  ℕ, ◌+◌, String, Bool, not, ◌&&◌, Option, none, some, List, [], ◌∷◌, ◌++◌, ◌==◌, if◌then◌else◌,
  str_eq, is_some, length, ltb,
}
use developer_assistant.Prelude.Table.{update_where, select, returning, fetchone}
use developer_assistant.Prelude.Newest.{newest_first}
use developer_assistant.Prelude.Results.{Result, ok, err}

pub record Binding : Type 0 where
  pub id : ℕ
  pub created_at : ℕ
  pub founder_id : String
  pub adapter_id : String
  pub upstream_user_id : String
  pub display_name : Option String
  pub bound_at : ℕ
  pub revoked_at : Option ℕ

-- `last_id` is the table's entry of `sqlite_sequence`.
pub record BindingTable : Type 0 where
  pub rows : List Binding
  pub last_id : ℕ

-- `row["id"]` of a missing row.
pub data BindError : Type 0 where
  no_row : BindError

unfoldable pub has_identity : String → String → Binding → Bool
has_identity adapter user r = str_eq r.adapter_id adapter && str_eq r.upstream_user_id user

unfoldable pub is_active : Binding → Bool
is_active r = not (is_some r.revoked_at)

unfoldable pub holder : String → String → BindingTable → Option Binding
unfolding has_identity
holder adapter user t = fetchone (select (has_identity adapter user) t.rows)

unfoldable pub new_binding : ℕ → ℕ → String → String → String → Option String → Binding
new_binding now i founder adapter user name = record {
  id = i;
  created_at = now;
  founder_id = founder;
  adapter_id = adapter;
  upstream_user_id = user;
  display_name = name;
  bound_at = now;
  revoked_at = none;
}

unfoldable pub held_id : ℕ → Option Binding → Result BindError ℕ
held_id previous none = err no_row
held_id previous (some r) = if previous == 0 then ok r.id else ok previous

-- `previous` is the id of the connection's last INSERT into any table, or 0: sqlite3 gives it as the
-- `lastrowid` of an INSERT that is ignored, which takes an id of the sequence all the same.
unfoldable pub bind_founder_identity :
    ℕ
    → ℕ
    → String
    → String
    → String
    → Option String
    → BindingTable
    → BindingTable × Result BindError ℕ
unfolding new_binding held_id
bind_founder_identity now previous founder adapter user name t = elim (holder adapter user t) [
  | some r ↦ (record t { last_id = t.last_id + 1 }, held_id previous (some r))
  | none ↦ (
    record t {
      rows = t.rows ++ new_binding now (t.last_id + 1) founder adapter user name ∷ [];
      last_id = t.last_id + 1;
    },
    ok (t.last_id + 1),
  )
]

abbrev pub founder_of : Option Binding → Option String
founder_of none = none
founder_of (some r) = some r.founder_id

unfoldable pub lookup_founder_by_upstream_identity : String → String → BindingTable → Option String
unfolding has_identity is_active
lookup_founder_by_upstream_identity adapter user t =
    founder_of (fetchone (select (λ r. has_identity adapter user r && is_active r) t.rows))

unfoldable pub mark_revoked : ℕ → Binding → Binding
mark_revoked now r = record r { revoked_at = some now }

unfoldable pub revoke_founder_binding : ℕ → String → String → BindingTable → BindingTable × Bool
unfolding has_identity is_active mark_revoked
revoke_founder_binding now adapter user t = (
  record t {
    rows = update_where (λ r. has_identity adapter user r && is_active r) (mark_revoked now) t.rows;
  },
  ltb 0 (
      length
        (returning (λ r. has_identity adapter user r && is_active r) (mark_revoked now) t.rows)),
)

unfoldable pub list_founder_bindings : Option String → BindingTable → List Binding
list_founder_bindings none t = newest_first (λ r. r.bound_at) t.rows
list_founder_bindings (some founder) t =
    newest_first (λ r. r.bound_at) (select (λ r. str_eq r.founder_id founder) t.rows)

-- A call that writes, with its arguments; `bind` with the time and the previous id.
pub data Call : Type 0 where
  bind : ℕ → ℕ → String → String → String → Option String → Call
  revoke : ℕ → String → String → Call

unfoldable pub perform : Call → BindingTable → BindingTable
perform (bind now previous founder adapter user name) t =
    (bind_founder_identity now previous founder adapter user name t).0
perform (revoke now adapter user) t = (revoke_founder_binding now adapter user t).0

unfoldable pub history : List Call → BindingTable → BindingTable
history [] t = t
history (c ∷ cs) t = history cs (perform c t)
