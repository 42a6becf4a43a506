-- ===== src/Telegram/Records.antt =====
-- telegram_adapter.py: the records that the adapter takes, keeps and gives back, and their Russian
-- texts. The texts that go to the Telegram sender and to the artifact writer are kept in the order
-- of the calls, and these calls raise nothing.
use developer_assistant.Prelude.{
  ℕ, String, Bool, false, Option, List, [], ◌∷◌, ◌++◌, if◌then◌else◌, str_eq, one_of,
}
use developer_assistant.Prelude.Text.{Text, codes}
use developer_assistant.Prelude.Dict.{Dict}
use developer_assistant.Prelude.Results.{Result, ok, err}
use developer_assistant.Telegram.Messages.{MessageCategory}
use developer_assistant.Telegram.Access.{FounderAllowlistConfig}

pub data CommandName : Type 0 where
  new_project status decisions pause resume : CommandName

pub record TelegramEvent : Type 0 where
  pub chat_key : String
  pub user_key : String
  pub text : Text
  pub timestamp : String
  pub reply_to : Option String

pub record SpecialistQuestion : Type 0 where
  pub context : Text
  pub options : List Text
  pub recommendation : Text
  pub impact : Text
  pub urgency : String

-- `ValueError` and `TypeError`.
pub data Error : Type 0 where
  value_error type_error : Error

-- SpecialistQuestion.__post_init__
unfoldable pub new_question : SpecialistQuestion → Result Error SpecialistQuestion
new_question q = if one_of q.urgency ("low" ∷ "medium" ∷ "high" ∷ []) then ok q else err value_error

abbrev newline : Text
newline = 10 ∷ []

join_options : List Text → Text
join_options [] = []
join_options (o ∷ []) = codes "  - " ++ o
join_options (o ∷ p ∷ os) = codes "  - " ++ (o ++ (newline ++ join_options (p ∷ os)))

urgency_ru : String → String
urgency_ru s =
    if str_eq s "low"
    then "низкая"
    else if str_eq s "medium"
    then "средняя"
    else if str_eq s "high"
    then "высокая"
    else s

unfoldable pub question_to_russian_text : SpecialistQuestion → Text
unfolding join_options urgency_ru
question_to_russian_text q =
    codes "Контекст: "
    ++ (q.context
        ++ (codes "\nВарианты:\n"
            ++ (join_options q.options
                ++ (codes "\nРекомендация: "
                    ++ (q.recommendation
                        ++ (codes "\nВлияние: "
                            ++ (q.impact
                                ++ (codes "\nСрочность: " ++ codes (urgency_ru q.urgency)))))))))

pub record ProgressReport : Type 0 where
  pub completed : Text
  pub current_action : Text
  pub blocker_state : Text
  pub decisions_needed : Text
  pub notable_risks : Text

unfoldable pub report_to_russian_text : ProgressReport → Text
report_to_russian_text r =
    codes "Завершено: "
    ++ (r.completed
        ++ (codes "\nТекущее действие: "
            ++ (r.current_action
                ++ (codes "\nБлокеры: "
                    ++ (r.blocker_state
                        ++ (codes "\nТребуются решения: "
                            ++ (r.decisions_needed ++ (codes "\nРиски: " ++ r.notable_risks))))))))

pub record CommandResult : Type 0 where
  pub command : CommandName
  pub chat_key : String
  pub response_key : String
  pub status : String
  pub message_ru : Text
  pub artifact_intent : Option String

pub record ClassificationResult : Type 0 where
  pub category : MessageCategory
  pub chat_key : String
  pub text : Text
  pub durable_decision : Bool
  pub artifact_target : Option String

pub data EventResult : Type 0 where
  commanded : CommandResult → EventResult
  classified : ClassificationResult → EventResult

pub record ProjectState : Type 0 where
  pub paused : Bool
  pub phase : Text
  pub active_ticket : Text
  pub active_pr : Text
  pub blockers : Text
  pub pending_decisions : Text

abbrev pub new_state : ProjectState
new_state = record {
  paused = false;
  phase = [];
  active_ticket = [];
  active_pr = [];
  blockers = [];
  pending_decisions = [];
}

pub record Adapter : Type 0 where
  pub config : FounderAllowlistConfig
  pub projects : Dict ProjectState
  pub pending_questions : Dict SpecialistQuestion
  pub report_intervals : Dict ℕ
  pub last_report_ts : Dict String
  pub written : List (String × Text)
  pub sent : List (String × Text)

abbrev pub new_adapter : FounderAllowlistConfig → Adapter
new_adapter c = record {
  config = c;
  projects = [];
  pending_questions = [];
  report_intervals = [];
  last_report_ts = [];
  written = [];
  sent = [];
}
