-- ===== src/Upstream/Samples.antt =====
-- The theorems about the upstream side at small tables.
use developer_assistant.Prelude.{
  String, true, false, none, some, [], ◌∷◌, ◌==◌, if◌then◌else◌, ◌≡◌, refl, arith, ◌+◌,
}
use developer_assistant.Prelude.Text.{Text, codes}
use developer_assistant.Prelude.Table.{select, returning, fetchone}
use developer_assistant.Prelude.Newest.{newest_first, insert_newest}
use developer_assistant.Prelude.Results.{ok}
use developer_assistant.Upstream.Identity.{
  Binding, BindingTable, has_identity, is_active, holder, bind_founder_identity,
  lookup_founder_by_upstream_identity, revoke_founder_binding, bind, history,
}
use developer_assistant.Upstream.Sessions.{
  Session, SessionTable, get_or_create_session, read_session,
}
use developer_assistant.Upstream.Adapters.{InboundMessageInput, Registry, get_adapter}
use developer_assistant.Upstream.Telegram.{inbound_message, telegram_adapter}
use developer_assistant.Upstream.Router.{
  OutboundIntent, resolve_adapter_id, active_of, send_outbound_to_founder,
}
use developer_assistant.Upstream.Bindings.{revocation_is_final, bind_founder_lem}
use developer_assistant.Upstream.Reply.{reply_reaches_chat, read_session-get_or_create_session}

abbrev bound : Binding
bound = record {
  id = 1;
  created_at = 5;
  founder_id = "founder";
  adapter_id = "telegram";
  upstream_user_id = "7";
  display_name = none;
  bound_at = 5;
  revoked_at = none;
}

abbrev bindings : BindingTable
bindings = record { rows = bound ∷ []; last_id = 1 }

abbrev earlier : Session
earlier = record {
  id = 1;
  session_id = "tg-9";
  adapter_id = "telegram";
  founder_id = "founder";
  upstream_chat_id = "9";
  created_at = 6;
  last_message_at = 6;
  paused = false;
  current_project_id = none;
}

abbrev sessions : SessionTable
sessions = record { rows = earlier ∷ []; last_id = 1 }

revoked : (revoke_founder_binding 8 "telegram" "7" bindings).1 ≡ true
unfolding revoke_founder_binding returning has_identity is_active
revoked = refl

revocation_is_final_example :
    lookup_founder_by_upstream_identity "telegram" "7" (
      history
        (bind 9 1 "founder" "telegram" "7" none ∷ [])
        (revoke_founder_binding 8 "telegram" "7" bindings).0)
    ≡ none
revocation_is_final_example =
    revocation_is_final "telegram" "7" 8 bindings (bind 9 1 "founder" "telegram" "7" none ∷ [])
      revoked

bind_founder_lem_example :
    (holder "telegram" "8" bindings ≡ none
      → (lookup_founder_by_upstream_identity "telegram" "8"
            (bind_founder_identity 9 1 "founder" "telegram" "8" none bindings).0
          ≡ some "founder")
        × ((bind_founder_identity 9 1 "founder" "telegram" "8" none bindings).1 ≡ ok (1 + 1)))
    × ((r : Binding)
        → holder "telegram" "8" bindings ≡ some r
        → bind_founder_identity 9 1 "founder" "telegram" "8" none bindings
          ≡ (record bindings { last_id = 1 + 1 }, ok (if 1 == 0 then r.id else 1)))
bind_founder_lem_example = bind_founder_lem "telegram" "8" 9 1 "founder" none bindings

-- A second binding of the identity answers with the id of the connection's last insertion.
rebind_answers_other_id :
    (bind_founder_identity 9 42 "founder" "telegram" "7" none bindings).1 ≡ ok 42
unfolding bind_founder_identity holder has_identity select fetchone
rebind_answers_other_id = refl

abbrev hello : InboundMessageInput
hello = record {
  adapter_id = "telegram";
  upstream_user_id = "7";
  upstream_chat_id = "9";
  message_text = codes "hello";
  message_id = "m1";
  received_at = "";
  reply_to_message_id = none;
  attachments = [];
}

abbrev answer : OutboundIntent
answer = record {
  kind = "message";
  message_text = codes "done";
  purpose = "general_message";
  escalation_id = none;
  originating_runtime = [];
  proposed_action = [];
  trigger_kind = [];
  recommended_default = [];
  impact = [];
  urgency = "low";
  response_modes = none;
  parent_message_id_upstream = none;
}

abbrev gateway : String → Text → String
gateway chat text = "m2"

abbrev adapters : Registry
adapters = ("telegram", telegram_adapter gateway) ∷ []

known : lookup_founder_by_upstream_identity "telegram" "7" bindings ≡ some "founder"
unfolding lookup_founder_by_upstream_identity has_identity is_active select fetchone
known = refl

telegram_is_newest : resolve_adapter_id "founder" bindings ≡ ok "telegram"
unfolding resolve_adapter_id active_of is_active select fetchone newest_first insert_newest
telegram_is_newest = refl

is_registered : get_adapter "telegram" adapters ≡ ok (telegram_adapter gateway)
unfolding get_adapter
is_registered = refl

reply_reaches_chat_example :
    send_outbound_to_founder adapters "founder" answer bindings
      (inbound_message 7 hello bindings sessions).0
    ≡ ok (record { chat_id = "9"; text = codes "done"; message_id = "m2" })
reply_reaches_chat_example =
    reply_reaches_chat gateway adapters bindings sessions 7 hello "founder" answer known
      telegram_is_newest is_registered (omega arith, tt) ((λ h. (refl, refl, refl)), tt) refl

read_session-get_or_create_session_example :
    (read_session "tg-9" (get_or_create_session 7 "tg-9" "telegram" "founder" "9" sessions).0
      ≡ some (get_or_create_session 7 "tg-9" "telegram" "founder" "9" sessions).1)
    × ((get_or_create_session 7 "tg-9" "telegram" "founder" "9" sessions).1.upstream_chat_id ≡ "9")
    × ((get_or_create_session 7 "tg-9" "telegram" "founder" "9" sessions).1.last_message_at ≡ 7)
read_session-get_or_create_session_example =
    read_session-get_or_create_session 7 "tg-9" "telegram" "founder" "9" sessions
