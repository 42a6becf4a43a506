-- ===== src/Telegram/Adapter.antt =====
-- telegram_adapter.py: what `TelegramFounderAdapter` makes of an event, and the questions of the
-- specialists.
use developer_assistant.Prelude.{
  String, Bool, true, false, ◌&&◌, Option, none, some, [], ◌∷◌, ◌++◌, if◌then◌else◌, is_some,
}
use developer_assistant.Prelude.Text.{Text, Unicode, codes}
use developer_assistant.Prelude.Dict.{get, put, remove}
use developer_assistant.Prelude.Results.{Result, ok, err}
use developer_assistant.Telegram.Messages.{
  MessageCategory, answer, clarification, approval, rejection, classify_message,
  is_durable_decision,
}
use developer_assistant.Telegram.Access.{is_allowed}
use developer_assistant.Telegram.Records.{
  CommandName, TelegramEvent, SpecialistQuestion, Error, value_error, question_to_russian_text,
  CommandResult, ClassificationResult, EventResult, commanded, classified, Adapter,
}
use developer_assistant.Telegram.Commands.{parse_command, dispatch_command}

-- category in (APPROVAL, REJECTION, ANSWER)
abbrev pub decides : MessageCategory → Bool
decides approval = true
decides rejection = true
decides answer = true
decides _ = false

-- category in (APPROVAL, REJECTION, ANSWER, CLARIFICATION)
abbrev pub closes : MessageCategory → Bool
closes clarification = true
closes c = decides c

abbrev pub decision_text : String → Text → Text
decision_text chat_key text = codes "Decision from " ++ (codes chat_key ++ (codes ": " ++ text))

abbrev pub target_of : Bool → Option String
target_of durable = if durable then some "docs/questions/" else none

unfoldable pub handle_freeform : Unicode → TelegramEvent → Adapter → Adapter × ClassificationResult
handle_freeform u e s =
    let has_pending = is_some (get e.chat_key s.pending_questions) in
    let category = classify_message u e.text has_pending in
    let durable = is_durable_decision u e.text in
    (
      record s {
        written =
            if durable && decides category
            then s.written ++ ("docs/questions/", decision_text e.chat_key e.text) ∷ []
            else s.written;
        pending_questions =
            if has_pending && closes category
            then remove e.chat_key s.pending_questions
            else s.pending_questions;
      },
      record {
        category = category;
        chat_key = e.chat_key;
        text = e.text;
        durable_decision = durable;
        artifact_target = target_of durable;
      },
    )

unfoldable pub refusal : TelegramEvent → ClassificationResult
refusal e = record {
  category = rejection;
  chat_key = e.chat_key;
  text = codes "Unauthorized";
  durable_decision = false;
  artifact_target = none;
}

unfoldable pub with_commanded : Adapter × CommandResult → Adapter × EventResult
with_commanded (s, r) = (s, commanded r)

unfoldable pub with_classified : Adapter × ClassificationResult → Adapter × EventResult
with_classified (s, r) = (s, classified r)

unfoldable pub handle_parsed :
    Unicode → Option CommandName → TelegramEvent → Adapter → Adapter × EventResult
unfolding with_commanded with_classified
handle_parsed u (some cn) e s = with_commanded (dispatch_command cn e s)
handle_parsed u none e s = with_classified (handle_freeform u e s)

unfoldable pub handle_event : Unicode → TelegramEvent → Adapter → Adapter × EventResult
unfolding handle_parsed
handle_event u e s =
    if is_allowed s.config e.chat_key e.user_key
    then handle_parsed u (parse_command u e.text) e s
    else (s, classified (refusal e))

unfoldable pub route_specialist_question :
    String → SpecialistQuestion → Adapter → Adapter × Result Error Text
unfolding question_to_russian_text
route_specialist_question chat_key q s = elim (get chat_key s.pending_questions) [
  | some p ↦ (s, err value_error)
  | none ↦ (
    record s {
      pending_questions = put chat_key q s.pending_questions;
      sent = s.sent ++ (chat_key, question_to_russian_text q) ∷ [];
    },
    ok (question_to_russian_text q),
  )
]
