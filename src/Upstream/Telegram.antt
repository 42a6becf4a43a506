-- ===== src/Upstream/Telegram.antt =====
-- upstream_adapters/telegram.py. The dispatcher of the Hermes skills is a parameter: it answers the
-- payload of a chat and a text with the id of the message.
use Prim.Native.String.{◌++◌ as text_append}
use developer_assistant.Prelude.{ℕ, String, true, none, some, [], ◌∷◌, ◌++◌, if◌then◌else◌, str_eq}
use developer_assistant.Prelude.Text.{Text, codes, truthy}
use developer_assistant.Prelude.Decimal.{decimal}
use developer_assistant.Prelude.Results.{Result, ok, err}
use developer_assistant.Upstream.Identity.{
  BindingTable, BindError, bind_founder_identity, lookup_founder_by_upstream_identity,
}
use developer_assistant.Upstream.Sessions.{
  Session, SessionTable, get_or_create_session, read_session,
}
use developer_assistant.Upstream.Adapters.{
  BindFounderIdentityInput, GetOrCreateSessionInput, GetOrCreateSessionResult, InboundMessageInput,
  Inbound, accepted, refused, OutboundMessageInput, ApprovalPromptInput, SendError,
  session_not_found, Sent, UpstreamAdapter,
}

abbrev pub telegram_id : String
telegram_id = "telegram"

abbrev pub session_id_for_chat : String → String
session_id_for_chat chat = text_append "tg-" chat

urgency_ru : String → String
urgency_ru s =
    if str_eq s "low"
    then "низкая"
    else if str_eq s "medium"
    then "средняя"
    else if str_eq s "high"
    then "высокая"
    else s

line : String → Text → Text → Text
line label value rest = codes label ++ (value ++ (10 ∷ rest))

unfoldable pub format_approval_prompt_ru : ApprovalPromptInput → Text
unfolding urgency_ru line
format_approval_prompt_ru inp = line "Исходная среда выполнения: " inp.originating_runtime (
    line "Предлагаемое действие: " inp.proposed_action (
      line "Тип триггера: " inp.trigger_kind (
        line "Рекомендуемое значение по умолчанию: " inp.recommended_default (
          line "Влияние: " inp.impact (
            line "Срочность: " (codes (urgency_ru inp.urgency)) (
              codes "Идентификатор эскалации: "
              ++ (decimal inp.escalation_id
                  ++ (if truthy inp.prompt_text then 10 ∷ 10 ∷ inp.prompt_text else []))))))))

unfoldable pub accept : ℕ → InboundMessageInput → String → SessionTable → SessionTable × Inbound
accept now inp founder sessions = (
  (get_or_create_session now (session_id_for_chat inp.upstream_chat_id) telegram_id founder
      inp.upstream_chat_id sessions).0,
  accepted (record {
    adapter_id = telegram_id;
    founder_id = founder;
    session_id = session_id_for_chat inp.upstream_chat_id;
    message_text = inp.message_text;
    message_id_upstream = inp.message_id;
    received_at = inp.received_at;
    reply_to_message_id_upstream = inp.reply_to_message_id;
  }),
)

unfoldable pub drop_unbound : InboundMessageInput → SessionTable → SessionTable × Inbound
drop_unbound inp sessions = (
  sessions,
  refused (record {
    adapter_id = telegram_id;
    upstream_user_id = inp.upstream_user_id;
    reason = "no_identity_binding";
    dropped = true;
  }),
)

unfoldable pub inbound_message :
    ℕ → InboundMessageInput → BindingTable → SessionTable → SessionTable × Inbound
unfolding accept drop_unbound
inbound_message now inp bindings sessions =
    elim (lookup_founder_by_upstream_identity telegram_id inp.upstream_user_id bindings) [
      | some founder ↦ accept now inp founder sessions
      | none ↦ drop_unbound inp sessions
    ]

module _ (dispatcher : String → Text → String) where
  unfoldable pub outbound_message : OutboundMessageInput → SessionTable → Result SendError Sent
  outbound_message inp sessions = elim (read_session inp.session_id sessions) [
    | none ↦ err session_not_found
    | some s ↦ ok (record {
      chat_id = s.upstream_chat_id;
      text = inp.message_text;
      message_id = dispatcher s.upstream_chat_id inp.message_text;
    })
  ]

  unfoldable pub outbound_approval_prompt :
      ApprovalPromptInput → SessionTable → Result SendError Sent
  unfolding outbound_message format_approval_prompt_ru
  outbound_approval_prompt inp = outbound_message (record {
    adapter_id = inp.adapter_id;
    founder_id = inp.founder_id;
    session_id = inp.session_id;
    message_text = format_approval_prompt_ru inp;
    purpose = "decision_response";
    parent_message_id_upstream = none;
  })

  unfoldable pub telegram_adapter : UpstreamAdapter
  unfolding outbound_message outbound_approval_prompt inbound_message
  telegram_adapter = record {
    inbound_message = inbound_message;
    outbound_message = outbound_message;
    outbound_approval_prompt = outbound_approval_prompt;
  }

-- TelegramAdapter.bind_founder_identity
unfoldable pub bind_identity :
    ℕ → ℕ → BindFounderIdentityInput → BindingTable → BindingTable × Result BindError ℕ
bind_identity now previous inp t =
    bind_founder_identity now previous inp.founder_id inp.adapter_id inp.upstream_user_id
      inp.display_name t

abbrev session_result : SessionTable × Session → SessionTable × GetOrCreateSessionResult
session_result (t, r) = (
  t,
  record {
    session_id = r.session_id;
    adapter_id = r.adapter_id;
    founder_id = r.founder_id;
    upstream_chat_id = r.upstream_chat_id;
    created_at = r.created_at;
    last_message_at = r.last_message_at;
    paused = r.paused;
    current_project_id = r.current_project_id;
  },
)

-- TelegramAdapter.get_or_create_session
unfoldable pub session_of_chat :
    ℕ → GetOrCreateSessionInput → SessionTable → SessionTable × GetOrCreateSessionResult
session_of_chat now inp t =
    session_result (
      get_or_create_session now inp.session_id inp.adapter_id inp.founder_id inp.upstream_chat_id t)
