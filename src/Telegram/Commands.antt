-- ===== src/Telegram/Commands.antt =====
-- telegram_adapter.py: the commands of the founder.
use developer_assistant.Prelude.{
  String, Bool, true, false, ◌&&◌, ◌||◌, Option, none, some, List, [], ◌∷◌, ◌++◌, if◌then◌else◌,
  ◌==◌,
}
use developer_assistant.Prelude.Text.{Text, Unicode, codes, strip, starts_with, or_text}
use developer_assistant.Prelude.Dict.{get, put}
use developer_assistant.Telegram.Records.{
  CommandName, new_project, status, decisions, pause, resume, TelegramEvent,
  question_to_russian_text, CommandResult, ProjectState, new_state, Adapter,
}

abbrev pub command_names : List CommandName
command_names = new_project ∷ status ∷ decisions ∷ pause ∷ resume ∷ []

abbrev pub value_of : CommandName → String
value_of new_project = "/new_project"
value_of status = "/status"
value_of decisions = "/decisions"
value_of pause = "/pause"
value_of resume = "/resume"

after_text : Text → Text → Text
after_text [] s = s
after_text (c ∷ t) [] = []
after_text (c ∷ t) (d ∷ s) = after_text t s

-- The text ends here, or a space or an at sign follows.
ends_word : Text → Bool
ends_word [] = true
ends_word (c ∷ s) = c == b' ' || c == b'@'

unfoldable pub is_command : Text → CommandName → Bool
unfolding after_text ends_word
is_command s cn =
    starts_with s (codes (value_of cn)) && ends_word (after_text (codes (value_of cn)) s)

first_command : Text → List CommandName → Option CommandName
unfolding is_command
first_command s [] = none
first_command s (cn ∷ cns) =
    let rest = first_command s cns in if is_command s cn then some cn else rest

unfoldable pub parse_command : Unicode → Text → Option CommandName
unfolding first_command
parse_command u text = first_command (strip u text) command_names

unfoldable pub project_of : String → Adapter → ProjectState
project_of chat_key s = elim (get chat_key s.projects) [ some p ↦ p | none ↦ new_state ]

unfoldable pub ensure_project : String → Adapter → Adapter
ensure_project chat_key s = elim (get chat_key s.projects) [
  | some p ↦ s
  | none ↦ record s { projects = put chat_key new_state s.projects }
]

abbrev plain : CommandName → String → String → String → CommandResult
plain cn chat_key st message = record {
  command = cn;
  chat_key = chat_key;
  response_key = chat_key;
  status = st;
  message_ru = codes message;
  artifact_intent = none;
}

unfoldable pub cmd_new_project : TelegramEvent → Adapter → Adapter × CommandResult
unfolding ensure_project project_of
cmd_new_project e s =
    let t = ensure_project e.chat_key s in
    let p = project_of e.chat_key s in
    (
      record t {
        projects = put e.chat_key (record p { paused = false; phase = codes "intake" }) t.projects;
        report_intervals = put e.chat_key 45 t.report_intervals;
      },
      record (plain new_project e.chat_key "started"
          "Начат процесс создания нового проекта. Опишите проект.") {
            artifact_intent = some "docs/prd/";
          },
    )

unfoldable pub cmd_status : TelegramEvent → Adapter → Adapter × CommandResult
unfolding ensure_project project_of
cmd_status e s =
    let p = project_of e.chat_key s in
    (
      ensure_project e.chat_key s,
      record (plain status e.chat_key "ok" "") {
        message_ru =
            codes "Фаза: "
            ++ (or_text p.phase (codes "не задана")
                ++ (codes "\nАктивный тикет: "
                    ++ (or_text p.active_ticket (codes "нет")
                        ++ (codes "\nАктивный PR: "
                            ++ (or_text p.active_pr (codes "нет")
                                ++ (codes "\nБлокеры: "
                                    ++ (or_text p.blockers (codes "нет")
                                        ++ (codes "\nРешения: "
                                            ++ (or_text p.pending_decisions (codes "нет")
                                                ++ (codes "\nПауза: "
                                                    ++ (if p.paused
                                                        then codes "да"
                                                        else codes "нет")))))))))));
      },
    )

unfoldable pub cmd_decisions : TelegramEvent → Adapter → Adapter × CommandResult
unfolding ensure_project project_of question_to_russian_text
cmd_decisions e s = (
  ensure_project e.chat_key s,
  elim (get e.chat_key s.pending_questions) [
    | some q ↦ record (plain decisions e.chat_key "pending" "") {
      message_ru = codes "Открытый вопрос:\n" ++ question_to_russian_text q;
    }
    | none ↦ record (plain decisions e.chat_key "ok" "") {
      message_ru =
          codes "Открытые решения: "
          ++ or_text (project_of e.chat_key s).pending_decisions (codes "Нет открытых решений");
    }
  ],
)

unfoldable pub set_paused : Bool → String → Adapter → Adapter
unfolding ensure_project project_of
set_paused b chat_key s =
    let t = ensure_project chat_key s in
    record t { projects = put chat_key (record (project_of chat_key s) { paused = b }) t.projects }

unfoldable pub cmd_pause : TelegramEvent → Adapter → Adapter × CommandResult
unfolding set_paused
cmd_pause e s = (
  set_paused true e.chat_key s,
  plain pause e.chat_key "paused" "Работа по проекту приостановлена.",
)

unfoldable pub cmd_resume : TelegramEvent → Adapter → Adapter × CommandResult
unfolding set_paused
cmd_resume e s = (
  set_paused false e.chat_key s,
  plain resume e.chat_key "resumed" "Работа по проекту возобновлена.",
)

unfoldable pub dispatch_command : CommandName → TelegramEvent → Adapter → Adapter × CommandResult
dispatch_command new_project = cmd_new_project
dispatch_command status = cmd_status
dispatch_command decisions = cmd_decisions
dispatch_command pause = cmd_pause
dispatch_command resume = cmd_resume
