-- ===== src/Telegram/Access.antt =====
-- telegram_adapter.py: the allowlist of senders and the checks of the configuration.
use developer_assistant.Prelude.{
  String, Bool, true, false, not, ◌&&◌, ◌||◌, Option, none, some, List, [], ◌∷◌, ◌++◌, one_of,
  if◌then◌else◌, ◌≡◌, ◌↔◌, refl, arith,
}
use developer_assistant.Prelude.{eq_iff, str_eq}

pub record FounderAllowlistConfig : Type 0 where
  pub allowed_chat_keys : List String
  pub allowed_user_keys : List String
  pub gateway_allow_all : Bool
  pub telegram_allow_all : Bool

unfoldable pub is_allowed : FounderAllowlistConfig → String → String → Bool
is_allowed c chat_key user_key =
    if c.gateway_allow_all || c.telegram_allow_all
    then false
    else one_of chat_key c.allowed_chat_keys || one_of user_key c.allowed_user_keys

abbrev is_empty : List String → Bool
is_empty [] = true
is_empty (x ∷ xs) = false

unfoldable pub validate_config : FounderAllowlistConfig → Option String
validate_config c =
    if c.gateway_allow_all
    then some "GATEWAY_ALLOW_ALL_USERS must not be enabled"
    else if c.telegram_allow_all
    then some "TELEGRAM_ALLOW_ALL_USERS must not be enabled"
    else if is_empty c.allowed_chat_keys && is_empty c.allowed_user_keys
    then some "allowlist must contain at least one chat or user key"
    else none

-- `value not in (None, "", "false", "False", "0")`
abbrev pub is_set : Option String → Bool
is_set none = false
is_set (some v) = not (one_of v ("" ∷ "false" ∷ "False" ∷ "0" ∷ []))

abbrev when : Bool → String → List String
when b s = if b then s ∷ [] else []

-- The arguments of `validate_telegram_config_env`.
pub record TelegramEnv : Type 0 where
  pub gateway_allow_all : Option String
  pub telegram_allow_all : Option String
  pub telegram_bot_token_set : Bool
  pub telegram_allowed_users_set : Bool
  pub telegram_webhook_secret_set : Bool
  pub webhook_mode : Bool

unfoldable pub validate_telegram_config_env : TelegramEnv → List String
validate_telegram_config_env e =
    when (is_set e.gateway_allow_all) "GATEWAY_ALLOW_ALL_USERS must be unset or false"
    ++ (when (is_set e.telegram_allow_all) "TELEGRAM_ALLOW_ALL_USERS must be unset or false"
        ++ (when (not e.telegram_allowed_users_set && not e.webhook_mode)
              "TELEGRAM_ALLOWED_USERS must be set (or DM pairing configured)"
            ++ (when (not e.telegram_bot_token_set)
                  "TELEGRAM_BOT_TOKEN must be set in runtime environment"
                ++ when (e.webhook_mode && not e.telegram_webhook_secret_set)
                    "TELEGRAM_WEBHOOK_SECRET must be set when using webhook mode")))

same_key : (k : String) → str_eq k k ≡ true
same_key k = (eq_iff k k).1 refl

abbrev allowlist : List String → List String → Bool → Bool → FounderAllowlistConfig
allowlist chats users gateway telegram = record {
  allowed_chat_keys = chats;
  allowed_user_keys = users;
  gateway_allow_all = gateway;
  telegram_allow_all = telegram;
}

someone_is_allowed :
    (chats users : List String) (gateway telegram : Bool)
    → validate_config (allowlist chats users gateway telegram) ≡ none
    → (chat : String) × (user : String) × (is_allowed
          (allowlist chats users gateway telegram)
          chat
          user
        ≡ true)
unfolding validate_config is_allowed one_of
someone_is_allowed (k ∷ chats) users false false h = (k, "", ground (arith, same_key k))
someone_is_allowed [] (k ∷ users) false false h = ("", k, ground (arith, same_key k))
someone_is_allowed [] [] false false h = cc
someone_is_allowed chats users true telegram h = cc
someone_is_allowed chats users false true h = cc

allowed_is_valid :
    (chats users : List String) (gateway telegram : Bool) (chat user : String)
    → is_allowed (allowlist chats users gateway telegram) chat user ≡ true
    → validate_config (allowlist chats users gateway telegram) ≡ none
unfolding validate_config is_allowed one_of
allowed_is_valid [] [] gateway telegram chat user h = ground arith
allowed_is_valid (k ∷ chats) users gateway telegram chat user h = ground arith
allowed_is_valid [] (k ∷ users) gateway telegram chat user h = ground arith

-- The check of the allowlist finds nothing exactly if there is a sender that the adapter accepts.
pub validate_config_iff :
    (c : FounderAllowlistConfig)
    → (validate_config c ≡ none)
      ↔ ((chat : String) × (user : String) × (is_allowed c chat user ≡ true))
validate_config_iff c = (
  someone_is_allowed c.allowed_chat_keys c.allowed_user_keys c.gateway_allow_all
      c.telegram_allow_all,
  λ (chat, user, h).
      allowed_is_valid c.allowed_chat_keys c.allowed_user_keys c.gateway_allow_all
        c.telegram_allow_all chat user h,
)

violations_none :
    (g t k w users secret : Bool) (m1 m2 m3 m4 m5 : String)
    → (when g m1
          ++ (when t m2
              ++ (when (not users && not w) m3 ++ (when (not k) m4 ++ when (w && not secret) m5)))
        ≡ [])
      ↔ ((g ≡ false) × (t ≡ false) × (k ≡ true) × ((if w then secret else users) ≡ true))
violations_none g t k w users secret m1 m2 m3 m4 m5 = ground arith

-- The environment has no violation exactly if both allow-all values are unset or false, a token is
-- there, and there are users without the webhook or a secret with it.
pub validate_env_iff :
    (e : TelegramEnv)
    → (validate_telegram_config_env e ≡ []) ↔ (
        (is_set e.gateway_allow_all ≡ false)
        × (is_set e.telegram_allow_all ≡ false)
        × (e.telegram_bot_token_set ≡ true)
        × ((if e.webhook_mode then e.telegram_webhook_secret_set else e.telegram_allowed_users_set)
            ≡ true))
unfolding validate_telegram_config_env
validate_env_iff e =
    violations_none (is_set e.gateway_allow_all) (is_set e.telegram_allow_all)
      e.telegram_bot_token_set e.webhook_mode e.telegram_allowed_users_set
      e.telegram_webhook_secret_set _ _ _ _ _
