-- ===== src/Upstream/Reply.antt =====
-- A message that comes in from a founder, and the answer that the router sends to the founder.
use mathlib.Core.Option
use mathlib.Core.Path.{subst}
use developer_assistant.Prelude.{
  ℕ, ◌+◌, ◌<◌, ◌≤◌, String, true, false, none, some, [], ◌∷◌, ◌++◌, str_eq, Option-cases, inl, inr,
  ◌≡◌, refl, sym, ap, ◌∙◌, arith, eq_iff, All, All-append, All-map, ◌⊎◌,
}
use developer_assistant.Prelude.Text.{Text}
use developer_assistant.Prelude.Table.{update_where, select, fetchone, All-update_where}
use developer_assistant.Prelude.Newest.{Any, first_newest}
use developer_assistant.Prelude.Rows.{
  fetchone-append, fetchone-update_where, All-select, Any-select, Any-of_found, Any-last,
  Any-update_where,
}
use developer_assistant.Prelude.Results.{ok}
use developer_assistant.Upstream.Identity.{BindingTable, lookup_founder_by_upstream_identity}
use developer_assistant.Upstream.Sessions.{
  Session, SessionTable, has_session, touched, new_session, read_session, get_or_create_session,
  listed, list_sessions,
}
use developer_assistant.Upstream.Adapters.{
  InboundMessageInput, OutboundMessageInput, Registry, get_adapter,
}
use developer_assistant.Upstream.Telegram.{
  telegram_id, session_id_for_chat, accept, inbound_message, outbound_message, telegram_adapter,
}
use developer_assistant.Upstream.Router.{
  OutboundIntent, resolve_adapter_id, on_adapter, resolve_session_id, dispatch,
  send_outbound_to_founder,
}

read_added :
    (sid : String) (t : SessionTable) (r : Session) (n : ℕ)
    → r.session_id ≡ sid
    → read_session sid t ≡ none
    → read_session sid (record t { rows = t.rows ++ r ∷ []; last_id = n }) ≡ some r
unfolding read_session has_session
read_added sid t r n e h =
    fetchone-append (has_session sid) t.rows r ((eq_iff r.session_id sid).1 e) ∙ rw h refl

read_touched :
    (now : ℕ) (sid chat : String) (t : SessionTable) (r : Session) (n : ℕ)
    → read_session sid t ≡ some r
    → read_session sid
        (record t { rows = update_where (has_session sid) (touched now chat) t.rows; last_id = n })
      ≡ some (touched now chat r)
unfolding read_session has_session touched
read_touched now sid chat t r n e =
    fetchone-update_where (has_session sid) (touched now chat) t.rows (λ x h. h)
    ∙ ap (Option.map (touched now chat)) e

-- The session that get_or_create_session returns is the one that a read finds afterwards, with the
-- chat and the time of the call.
pub read_session-get_or_create_session :
    (now : ℕ) (sid adapter founder chat : String) (t : SessionTable)
    → (read_session sid (get_or_create_session now sid adapter founder chat t).0
        ≡ some (get_or_create_session now sid adapter founder chat t).1)
      × ((get_or_create_session now sid adapter founder chat t).1.upstream_chat_id ≡ chat)
      × ((get_or_create_session now sid adapter founder chat t).1.last_message_at ≡ now)
unfolding get_or_create_session touched new_session
read_session-get_or_create_session now sid adapter founder chat t =
    elim (Option-cases (read_session sid t)) [
      | inl e ↦
          rw (e, get_or_create_session)
            (
              read_added sid t (new_session now (t.last_id + 1) sid adapter founder chat)
                  (t.last_id + 1) refl e,
              refl,
              refl,
            )
      | inr (r, e) ↦
          rw (e, get_or_create_session)
            (read_touched now sid chat t r (t.last_id + 1) e, refl, refl)
    ]

found_row :
    (sid : String) (t : SessionTable) (r : Session)
    → read_session sid t ≡ some r
    → fetchone (select (has_session sid) t.rows) ≡ some r
unfolding read_session
found_row sid t r e = e

-- The session is open for the founder on the Telegram adapter.
abbrev pub IsOpenFor : String → Session → Type 0
IsOpenFor founder r = (r.founder_id ≡ founder) × (r.adapter_id ≡ telegram_id) × (r.paused ≡ false)

module _ (now : ℕ) (founder chat : String) (t : SessionTable) where
  abbrev sid : String
  sid = session_id_for_chat chat

  abbrev after : SessionTable
  after = (get_or_create_session now sid telegram_id founder chat t).0

  rows_added :
      read_session sid t ≡ none
      → after.rows ≡ t.rows ++ new_session now (t.last_id + 1) sid telegram_id founder chat ∷ []
  unfolding get_or_create_session
  rows_added e = rw (e, after, get_or_create_session) refl

  rows_touched :
      (r : Session)
      → read_session sid t ≡ some r
      → after.rows ≡ update_where (has_session sid) (touched now chat) t.rows
  unfolding get_or_create_session
  rows_touched r e = rw (e, after, get_or_create_session) refl

  abbrev IsSidOrOlder : Session → Type 0
  IsSidOrOlder r = (r.session_id ≡ sid) ⊎ (r.last_message_at < now)

  others_are_older : All (λ r. r.last_message_at < now) t.rows → All IsSidOrOlder after.rows
  unfolding touched new_session has_session
  others_are_older h = elim (Option-cases (read_session sid t)) [
    | inl e ↦
        subst (All IsSidOrOlder) (sym (rows_added e))
          (All-append IsSidOrOlder t.rows older (inl refl))
    | inr (r, e) ↦ subst (All IsSidOrOlder) (sym (rows_touched r e)) (
        All-update_where IsSidOrOlder (has_session sid) (touched now chat) t.rows
          (λ x f g. inl ((eq_iff x.session_id sid).0 f)) older)
  ]
    where
      older : All IsSidOrOlder t.rows
      older = All-map (λ r. r.last_message_at < now) IsSidOrOlder t.rows (λ r l. inr l) h

  abbrev IsNewest : Session → Type 0
  IsNewest r =
      (listed (some founder) (some false) r ≡ true)
      × ((on_adapter telegram_id r ≡ true) × (now ≤ r.last_message_at))

  session_is_listed :
      All (λ r. has_session sid r ≡ true → IsOpenFor founder r) t.rows → Any IsNewest after.rows
  unfolding touched new_session listed on_adapter
  session_is_listed h = elim (Option-cases (read_session sid t)) [
    | inl e ↦ subst (Any IsNewest) (sym (rows_added e)) (
        Any-last IsNewest t.rows (new_session now (t.last_id + 1) sid telegram_id founder chat)
          (ground (arith, (eq_iff founder founder).1 refl), (refl, ground arith)))
    | inr (r, e) ↦ subst (Any IsNewest) (sym (rows_touched r e)) (
        Any-update_where (λ x. (has_session sid x ≡ true) × IsOpenFor founder x) IsNewest
          (has_session sid) (touched now chat) t.rows (λ x g. g.0)
          (λ x g. (
            ground (arith, g.1.2, (eq_iff x.founder_id founder).1 g.1.0),
            ((eq_iff x.adapter_id telegram_id).1 g.1.1, ground arith),
          ))
          (found r e))
  ]
    where
      found :
          (r : Session)
          → read_session sid t ≡ some r
          → Any (λ x. (has_session sid x ≡ true) × IsOpenFor founder x) t.rows
      found r e =
          Any-of_found (has_session sid) (λ x. (has_session sid x ≡ true) × IsOpenFor founder x)
            t.rows r (found_row sid t r e)
            (All-map (λ x. has_session sid x ≡ true → IsOpenFor founder x)
              (λ x. has_session sid x ≡ true → (has_session sid x ≡ true) × IsOpenFor founder x)
              t.rows (λ x g f. (f, g f)) h)

  resolved :
      All (λ r. r.last_message_at < now) t.rows
      → All (λ r. has_session sid r ≡ true → IsOpenFor founder r) t.rows
      → resolve_session_id founder telegram_id after ≡ ok sid
  unfolding resolve_session_id list_sessions
  resolved older opened = rw (newest.1, resolve_session_id) (ap ok newest.2)
    where
      newest :
          (s : Session) × (fetchone
              (select (on_adapter telegram_id) (list_sessions (some founder) (some false) after))
            ≡ some s)
          × (s.session_id ≡ sid)
      newest =
          first_newest (λ r. r.last_message_at) (on_adapter telegram_id) (λ r. r.session_id ≡ sid)
            now (select (listed (some founder) (some false)) after.rows)
            (All-select (listed (some founder) (some false)) IsSidOrOlder after.rows
              (others_are_older older))
            (Any-select (listed (some founder) (some false))
              (λ r. (on_adapter telegram_id r ≡ true) × (now ≤ r.last_message_at)) after.rows
              (session_is_listed opened))

module _ (dispatcher : String → Text → String) (registry : Registry) (bindings : BindingTable)
    (sessions : SessionTable) where
  accepted_session :
      (now : ℕ) (inp : InboundMessageInput) (founder : String)
      → lookup_founder_by_upstream_identity telegram_id inp.upstream_user_id bindings ≡ some founder
      → (inbound_message now inp bindings sessions).0
        ≡ after now founder inp.upstream_chat_id sessions
  unfolding inbound_message accept
  accepted_session now inp founder h = rw (h, inbound_message) refl

  sent_to_session :
      (inp : OutboundMessageInput) (t : SessionTable) (s : Session) (chat : String)
      → read_session inp.session_id t ≡ some s
      → s.upstream_chat_id ≡ chat
      → outbound_message dispatcher inp t
        ≡ ok (record {
          chat_id = chat;
          text = inp.message_text;
          message_id = dispatcher chat inp.message_text;
        })
  unfolding outbound_message
  sent_to_session inp t s chat e f = rw (e, outbound_message, f) refl

  -- After a message of a known founder that is newer than every session, an intent for the
  -- founder that is no approval prompt goes to the chat of that message, with the text of the intent,
  -- if the founder's adapter is the registered Telegram adapter and a session that the chat had is open
  -- for the founder.
  pub reply_reaches_chat :
      (now : ℕ) (inp : InboundMessageInput) (founder : String) (intent : OutboundIntent)
      → lookup_founder_by_upstream_identity telegram_id inp.upstream_user_id bindings ≡ some founder
      → resolve_adapter_id founder bindings ≡ ok telegram_id
      → get_adapter telegram_id registry ≡ ok (telegram_adapter dispatcher)
      → All (λ r. r.last_message_at < now) sessions.rows
      → All
          (λ r.
            has_session (session_id_for_chat inp.upstream_chat_id) r ≡ true → IsOpenFor founder r)
          sessions.rows
      → str_eq intent.kind "approval_prompt" ≡ false
      → send_outbound_to_founder registry founder intent bindings
          (inbound_message now inp bindings sessions).0
        ≡ ok (record {
          chat_id = inp.upstream_chat_id;
          text = intent.message_text;
          message_id = dispatcher inp.upstream_chat_id intent.message_text;
        })
  unfolding send_outbound_to_founder dispatch telegram_adapter
  reply_reaches_chat now inp founder intent known adapter registered older opened message =
      let there =
        read_session-get_or_create_session now (sid now founder inp.upstream_chat_id sessions)
          telegram_id founder inp.upstream_chat_id sessions in
      ap (send_outbound_to_founder registry founder intent bindings)
        (accepted_session now inp founder known)
      ∙ rw
          (
            adapter,
            registered,
            resolved now founder inp.upstream_chat_id sessions older opened,
            message,
          )
          (sent_to_session
            (record {
              adapter_id = telegram_id;
              founder_id = founder;
              session_id = sid now founder inp.upstream_chat_id sessions;
              message_text = intent.message_text;
              purpose = intent.purpose;
              parent_message_id_upstream = intent.parent_message_id_upstream;
            })
            (after now founder inp.upstream_chat_id sessions) _ inp.upstream_chat_id there.0
            there.1)
