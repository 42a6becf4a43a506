-- ===== src/Telegram/Transport.antt =====
-- hermes_telegram_transport.py: the payloads of the gateway, the configuration of the transport, and
-- what goes in and out. `str.isdigit` is a parameter.
use developer_assistant.Prelude.{
  String, Bool, true, false, not, ◌&&◌, ◌||◌, Option, none, some, List, [], ◌∷◌, ◌++◌, ◌==◌, one_of,
  if◌then◌else◌, non_empty, str_eq,
}
use developer_assistant.Prelude.Text.{Text, Unicode, codes, truthy, strip}
use developer_assistant.Prelude.Dict.{Dict, get}
use developer_assistant.Telegram.Messages.{general_question}
use developer_assistant.Telegram.Access.{FounderAllowlistConfig, is_set}
use developer_assistant.Telegram.Records.{
  TelegramEvent, EventResult, commanded, classified, Adapter,
}
use developer_assistant.Telegram.Adapter.{handle_event}

pub record HermesGatewayPayload : Type 0 where
  pub source_chat : String
  pub source_user : String
  pub message_text : Text
  pub timestamp : String
  pub reply_to_message_id : Option String

-- `chat_str.startswith("-") and chat_str[1:].isdigit()`
abbrev pub is_negative : (Text → Bool) → Text → Bool
is_negative isdigit [] = false
is_negative isdigit (c ∷ s) = c == b'-' && isdigit s

unfoldable pub validate_payload : (Text → Bool) → HermesGatewayPayload → Option String
validate_payload isdigit p =
    if not (non_empty p.source_chat)
    then some "missing source_chat"
    else if not (non_empty p.source_user)
    then some "missing source_user"
    else if not (truthy p.message_text)
    then some "missing message_text"
    else if not (non_empty p.timestamp)
    then some "missing timestamp"
    else if isdigit (codes p.source_chat) || is_negative isdigit (codes p.source_chat)
    then some "source_chat appears to be a raw numeric chat ID"
    else if isdigit (codes p.source_user)
    then some "source_user appears to be a raw numeric user ID"
    else none

pub record TransportConfig : Type 0 where
  pub allowed_chats : List String
  pub allowed_users : List String
  pub dm_pairing : Dict String
  pub gateway_allow_all : Bool
  pub telegram_allow_all : Bool
  pub polling_mode : Bool
  pub webhook_mode : Bool
  pub webhook_secret_configured : Bool
  pub bot_token_configured : Bool

abbrev pub no_keys : List String → Bool
no_keys [] = true
no_keys (k ∷ ks) = false

abbrev pub no_pairs : Dict String → Bool
no_pairs [] = true
no_pairs (p ∷ ps) = false

abbrev pub when : Bool → String → List String
when b s = if b then s ∷ [] else []

unfoldable pub config_violations : TransportConfig → List String
config_violations c =
    when c.gateway_allow_all "GATEWAY_ALLOW_ALL_USERS must not be enabled"
    ++ (when c.telegram_allow_all "TELEGRAM_ALLOW_ALL_USERS must not be enabled"
        ++ (when (no_keys c.allowed_chats && (no_keys c.allowed_users && no_pairs c.dm_pairing))
              "allowlist must contain at least one chat, user, or DM pairing"
            ++ (when (not c.bot_token_configured) "TELEGRAM_BOT_TOKEN must be configured"
                ++ (when (c.webhook_mode && not c.webhook_secret_configured)
                      "TELEGRAM_WEBHOOK_SECRET must be configured in webhook mode"
                    ++ (when (c.webhook_mode && c.polling_mode)
                          "polling and webhook modes are mutually exclusive"
                        ++ when (not c.polling_mode && not c.webhook_mode)
                            "at least one transport mode (polling or webhook) must be enabled")))))

unfoldable pub to_allowlist_config : TransportConfig → FounderAllowlistConfig
to_allowlist_config c = record {
  allowed_chat_keys = c.allowed_chats;
  allowed_user_keys = c.allowed_users;
  gateway_allow_all = false;
  telegram_allow_all = false;
}

abbrev pub is_pair : Option String → String → Bool
is_pair none user = false
is_pair (some paired) user = str_eq paired user

unfoldable pub is_authorized : TransportConfig → String → String → Bool
is_authorized c chat_key user_key =
    if c.gateway_allow_all || c.telegram_allow_all
    then false
    else one_of chat_key c.allowed_chats
      || (one_of user_key c.allowed_users || is_pair (get chat_key c.dm_pairing) user_key)

abbrev pub event_of : HermesGatewayPayload → TelegramEvent
event_of p = record {
  chat_key = p.source_chat;
  user_key = p.source_user;
  text = p.message_text;
  timestamp = p.timestamp;
  reply_to = p.reply_to_message_id;
}

unfoldable pub turned_away : HermesGatewayPayload → String → EventResult
turned_away p reason = classified (record {
  category = general_question;
  chat_key = p.source_chat;
  text = codes reason;
  durable_decision = false;
  artifact_target = none;
})

-- The answer to an authorised payload, to one that is not, and to one with an error.
unfoldable pub receive :
    (Text → Bool)
    → Unicode
    → TransportConfig
    → HermesGatewayPayload
    → Adapter
    → Adapter × EventResult
unfolding turned_away
receive isdigit u c p s = elim (validate_payload isdigit p) [
  | some error ↦ (s, turned_away p error)
  | none ↦
      if is_authorized c p.source_chat p.source_user
      then handle_event u (event_of p) s
      else (s, turned_away p "Unauthorized: chat/user not in allowlist")
]

abbrev pub message_of : EventResult → String × Text
message_of (commanded r) = (r.chat_key, r.message_ru)
message_of (classified r) = (r.chat_key, r.text)

-- What is handed to the callback, which is the given one, or one of the factory.
unfoldable pub deliver : EventResult → Bool → Bool → Option (String × Text)
deliver r has_callback has_factory =
    if has_callback || has_factory then some (message_of r) else none

unfoldable pub deliver_as_sender : EventResult → Bool → Option (String × Text)
deliver_as_sender r has_factory = if has_factory then some (message_of r) else none

-- The arguments of `validate_transport_config_env`.
pub record TransportEnv : Type 0 where
  pub gateway_allow_all : Option String
  pub telegram_allow_all : Option String
  pub telegram_bot_token_set : Bool
  pub telegram_allowed_users_set : Bool
  pub telegram_webhook_secret_set : Bool
  pub webhook_mode : Bool
  pub polling_mode : Bool

unfoldable pub validate_transport_config_env : TransportEnv → List String
validate_transport_config_env e =
    when (is_set e.gateway_allow_all) "GATEWAY_ALLOW_ALL_USERS must be unset or false"
    ++ (when (is_set e.telegram_allow_all) "TELEGRAM_ALLOW_ALL_USERS must be unset or false"
        ++ (when (not e.telegram_allowed_users_set && not e.webhook_mode)
              "TELEGRAM_ALLOWED_USERS must be set (or DM pairing configured)"
            ++ (when (not e.telegram_bot_token_set)
                  "TELEGRAM_BOT_TOKEN must be set in runtime environment"
                ++ (when (e.webhook_mode && not e.telegram_webhook_secret_set)
                      "TELEGRAM_WEBHOOK_SECRET must be set when using webhook mode"
                    ++ when (e.webhook_mode && e.polling_mode)
                        "polling and webhook modes are mutually exclusive"))))

-- The two raw ids take no part in the payload.
unfoldable pub sanitize_gateway_payload :
    Unicode → Text → String → String → String → Option String → HermesGatewayPayload
sanitize_gateway_payload u text timestamp chat_label user_label reply_to = record {
  source_chat = chat_label;
  source_user = user_label;
  message_text = strip u text;
  timestamp = timestamp;
  reply_to_message_id = reply_to;
}
