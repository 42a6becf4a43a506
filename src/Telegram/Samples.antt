-- ===== src/Telegram/Samples.antt =====
-- The theorems about telegram_adapter.py at small adapters.
use developer_assistant.Prelude.{
  ◌*◌, String, true, false, not, ◌&&◌, none, some, List, [], ◌∷◌, if◌then◌else◌, is_some, str_eq,
  one_of, ◌≡◌, refl,
}
use developer_assistant.Prelude.Text.{Unicode, codes, starts_with, strip, is_space}
use developer_assistant.Prelude.Dict.{get}
use developer_assistant.Prelude.Results.{ok, err}
use developer_assistant.Regex.{compile, search_text}
use developer_assistant.Regex.Samples.{ascii_only}
use developer_assistant.Telegram.Messages.{approval, classify_message, classify_approval}
use developer_assistant.Telegram.Access.{FounderAllowlistConfig, is_allowed, TelegramEnv}
use developer_assistant.Telegram.Records.{
  TelegramEvent, SpecialistQuestion, Adapter, new_adapter, value_error, ProgressReport,
}
use developer_assistant.Telegram.Adapter.{route_specialist_question}
use developer_assistant.Telegram.Commands.{parse_command}
use developer_assistant.Telegram.Reports.{Stamp, Iso, is_report_due, minute}
use developer_assistant.Telegram.Runs.{Call, event, route, set_interval, run}
use developer_assistant.Telegram.Questions.{question_waits}
use developer_assistant.Telegram.Transport.{
  HermesGatewayPayload, TransportConfig, is_authorized, receive, to_allowlist_config,
}
use developer_assistant.Telegram.Pairing.{pairing_has_no_effect}

-- Every code point from 128 on is a letter.
abbrev letters : Unicode
letters = record ascii_only { word = λ c. true }

abbrev founder_only : FounderAllowlistConfig
founder_only = record {
  allowed_chat_keys = "chat:founder" ∷ [];
  allowed_user_keys = [];
  gateway_allow_all = false;
  telegram_allow_all = false;
}

abbrev message : String → String → TelegramEvent
message chat content = record {
  chat_key = chat;
  user_key = "user";
  text = codes content;
  timestamp = "";
  reply_to = none;
}

abbrev merge_question : SpecialistQuestion
merge_question = record {
  context = codes "merge";
  options = codes "yes" ∷ codes "no" ∷ [];
  recommendation = codes "yes";
  impact = codes "production";
  urgency = "high";
}

abbrev asking : Adapter
asking = record (new_adapter founder_only) {
  pending_questions = ("chat:founder", merge_question) ∷ [];
}

abbrev progress : ProgressReport
progress = record {
  completed = codes "TKT-001";
  current_action = [];
  blocker_state = [];
  decisions_needed = [];
  notable_risks = [];
}

-- "I do not agree" is classified as an approval.
disagreement_approves : classify_message letters (codes "не согласен") true ≡ approval
unfolding classify_message classify_approval compile search_text codes
disagreement_approves = refl

abbrev polling : TelegramEnv
polling = record {
  gateway_allow_all = some "false";
  telegram_allow_all = none;
  telegram_bot_token_set = true;
  telegram_allowed_users_set = true;
  telegram_webhook_secret_set = false;
  webhook_mode = false;
}

no_times : Iso
no_times ts = none

refused : is_allowed founder_only "chat:other" "user" ≡ false
unfolding is_allowed one_of
refused = refl

abbrev set_calls : List Call
set_calls = set_interval "chat:founder" 30 ∷ set_interval "chat:founder" 10 ∷ []

is_pending : get "chat:founder" asking.pending_questions ≡ some merge_question
unfolding get
is_pending = refl

status_is_a_command :
    ((is_allowed founder_only "chat:founder" "user"
        && not (is_some (parse_command ascii_only (codes "/status"))))
      && str_eq "chat:founder" "chat:founder")
    ≡ false
unfolding is_allowed one_of parse_command codes starts_with strip is_space
status_is_a_command = refl

abbrev two_calls : List Call
two_calls = event (message "chat:founder" "/status") ∷ route "chat:founder" merge_question ∷ []

question_waits_example :
    (get "chat:founder" (run ascii_only no_times two_calls asking).pending_questions
      ≡ some merge_question)
    × ((r : SpecialistQuestion)
        → route_specialist_question "chat:founder" r (run ascii_only no_times two_calls asking)
          ≡ (run ascii_only no_times two_calls asking, err value_error))
question_waits_example =
    question_waits ascii_only no_times "chat:founder" merge_question two_calls asking is_pending
      (status_is_a_command, (tt, tt))

abbrev noon : Stamp
noon = record { micros = 0; aware = true }

abbrev half_past : Stamp
half_past = record { micros = 30 * minute; aware = true }

abbrev naive : Stamp
naive = record { micros = 60 * minute; aware = false }

abbrev clock : Iso
clock ts =
    if str_eq ts "12:00"
    then some noon
    else if str_eq ts "12:30"
    then some half_past
    else some naive

first_is_due : is_report_due clock "chat:founder" "12:00" false (new_adapter founder_only) ≡ ok true
unfolding is_report_due get
first_is_due = refl

abbrev paired : TransportConfig
paired = record {
  allowed_chats = "chat:founder" ∷ [];
  allowed_users = [];
  dm_pairing = ("chat:dm", "user:dm") ∷ [];
  gateway_allow_all = false;
  telegram_allow_all = false;
  polling_mode = true;
  webhook_mode = false;
  webhook_secret_configured = false;
  bot_token_configured = true;
}

abbrev payload : HermesGatewayPayload
payload = record {
  source_chat = "chat:dm";
  source_user = "user:dm";
  message_text = codes "да";
  timestamp = "t";
  reply_to_message_id = none;
}

pair_is_authorized : is_authorized paired "chat:dm" "user:dm" ≡ true
unfolding is_authorized one_of get
pair_is_authorized = refl

pairing_has_no_effect_example :
    (receive (λ s. false) letters paired payload (new_adapter founder_only)).0
    ≡ (receive
        (λ s. false)
        letters
        (record paired { dm_pairing = [] })
        payload
        (new_adapter founder_only)).0
unfolding to_allowlist_config
pairing_has_no_effect_example =
    pairing_has_no_effect (λ s. false) letters paired payload (new_adapter founder_only) refl
