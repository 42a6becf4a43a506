-- ===== src/Upstream/Sessions.antt =====
-- upstream_sessions.py over the table upstream_sessions of
-- db/migrations/004_work_queue_and_escalations.sql.
use developer_assistant.Prelude.{
  ℕ, ◌+◌, String, Bool, true, false, not, ◌&&◌, Option, none, some, List, [], ◌∷◌, ◌++◌, str_eq,
}
use developer_assistant.Prelude.Table.{update_where, select, returning, fetchone}
use developer_assistant.Prelude.Newest.{newest_first}

pub record Session : Type 0 where
  pub id : ℕ
  pub session_id : String
  pub adapter_id : String
  pub founder_id : String
  pub upstream_chat_id : String
  pub created_at : ℕ
  pub last_message_at : ℕ
  pub paused : Bool
  pub current_project_id : Option ℕ

-- `last_id` is the table's entry of `sqlite_sequence`.
pub record SessionTable : Type 0 where
  pub rows : List Session
  pub last_id : ℕ

unfoldable pub has_session : String → Session → Bool
has_session sid r = str_eq r.session_id sid

unfoldable pub touched : ℕ → String → Session → Session
touched now chat r = record r { last_message_at = now; upstream_chat_id = chat }

unfoldable pub new_session : ℕ → ℕ → String → String → String → String → Session
new_session now i sid adapter founder chat = record {
  id = i;
  session_id = sid;
  adapter_id = adapter;
  founder_id = founder;
  upstream_chat_id = chat;
  created_at = now;
  last_message_at = now;
  paused = false;
  current_project_id = none;
}

unfoldable pub read_session : String → SessionTable → Option Session
unfolding has_session
read_session sid t = fetchone (select (has_session sid) t.rows)

-- INSERT … ON CONFLICT(session_id) DO UPDATE … RETURNING *, which takes an id of the sequence also
-- where it updates.
unfoldable pub get_or_create_session :
    ℕ → String → String → String → String → SessionTable → SessionTable × Session
unfolding touched new_session
get_or_create_session now sid adapter founder chat t = elim (read_session sid t) [
  | some r ↦ (
    record t {
      rows = update_where (has_session sid) (touched now chat) t.rows;
      last_id = t.last_id + 1;
    },
    touched now chat r,
  )
  | none ↦ (
    record t {
      rows = t.rows ++ new_session now (t.last_id + 1) sid adapter founder chat ∷ [];
      last_id = t.last_id + 1;
    },
    new_session now (t.last_id + 1) sid adapter founder chat,
  )
]

-- An UPDATE of the session, with the row that it returns.
update_session : String → (Session → Session) → SessionTable → SessionTable × Option Session
update_session sid f t = (
  record t { rows = update_where (has_session sid) f t.rows },
  fetchone (returning (has_session sid) f t.rows),
)

unfoldable pub update_session_last_message :
    ℕ → String → SessionTable → SessionTable × Option Session
unfolding update_session
update_session_last_message now sid = update_session sid (λ r. record r { last_message_at = now })

unfoldable pub set_session_paused : String → Bool → SessionTable → SessionTable × Option Session
unfolding update_session
set_session_paused sid paused = update_session sid (λ r. record r { paused = paused })

unfoldable pub set_session_current_project :
    String → Option ℕ → SessionTable → SessionTable × Option Session
unfolding update_session
set_session_current_project sid project =
    update_session sid (λ r. record r { current_project_id = project })

abbrev same_flag : Bool → Bool → Bool
same_flag true b = b
same_flag false b = not b

unfoldable pub listed : Option String → Option Bool → Session → Bool
listed none none r = true
listed (some founder) none r = str_eq r.founder_id founder
listed none (some paused) r = same_flag paused r.paused
listed (some founder) (some paused) r = str_eq r.founder_id founder && same_flag paused r.paused

unfoldable pub list_sessions : Option String → Option Bool → SessionTable → List Session
unfolding listed
list_sessions founder paused t =
    newest_first (λ r. r.last_message_at) (select (listed founder paused) t.rows)
