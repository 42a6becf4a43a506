-- ===== src/Telegram/Messages.antt =====
-- telegram_adapter.py: the classification of free messages. The patterns are compiled with
-- IGNORECASE.
use developer_assistant.Prelude.{
  String, Bool, true, false, List, [], ◌∷◌, if◌then◌else◌, ◌≡◌, arith, map,
}
use developer_assistant.Prelude.Text.{Text, Unicode, codes, lower, contains_any}
use developer_assistant.Regex.{compile, search_text}

pub data MessageCategory : Type 0 where
  intake answer clarification approval rejection general_question : MessageCategory

abbrev approval_patterns : String
approval_patterns =
    "\\b(одобр|соглас|одобряю|согласен|утвержд|подтвержд|approve|approved|confirmed|yes|да|ок|ok|хорошо|давай|go ahead)\\b"

abbrev rejection_patterns : String
rejection_patterns =
    "\\b(отверг|отклон|не соглас|отказываю|reject|rejected|denied|no|нет|отмена|cancel|stop|не надо)"

abbrev clarification_patterns : String
clarification_patterns =
    "\\b(уточн|поясн|разъясн|что значит|что имеется|explain|clarify|what do you mean|what does|подробнее)\\b"

abbrev question_patterns : String
question_patterns =
    "\\b(как|почему|зачем|когда|сколько|где|какой|какая|какие|можно ли|стоит ли|how|why|when|how much|where|which|should|can we|is it)\\b"

abbrev durable_decision_keywords : List String
durable_decision_keywords =
    "архитектур" ∷ "безопасност" ∷ "деплой" ∷ "депло" ∷ "deploy" ∷ "deployment" ∷ "мерж" ∷ "merge"
    ∷ "продакшн" ∷ "production" ∷ "бюджет" ∷ "budget" ∷ "cost" ∷ "стоимость" ∷ "credential"
    ∷ "токен" ∷ "token" ∷ "scope" ∷ "доступ" ∷ "архитектура" ∷ "architecture" ∷ "scope change"
    ∷ "расширение" ∷ []

unfoldable pub classify_approval : Unicode → Text → Bool
classify_approval u s = search_text u (compile true false approval_patterns) s

unfoldable pub classify_rejection : Unicode → Text → Bool
classify_rejection u s = search_text u (compile true false rejection_patterns) s

unfoldable pub classify_clarification : Unicode → Text → Bool
classify_clarification u s = search_text u (compile true false clarification_patterns) s

unfoldable pub classify_question : Unicode → Text → Bool
classify_question u s = search_text u (compile true false question_patterns) s

unfoldable pub is_durable_decision : Unicode → Text → Bool
is_durable_decision u s = contains_any (lower u s) (map codes durable_decision_keywords)

unfoldable pub classify_message : Unicode → Text → Bool → MessageCategory
classify_message u s pending_question =
    if pending_question
    then (if classify_approval u s
        then approval
        else if classify_rejection u s
        then rejection
        else if classify_clarification u s
        then clarification
        else answer)
    else if classify_approval u s
    then approval
    else if classify_rejection u s
    then rejection
    else if classify_clarification u s
    then clarification
    else if classify_question u s
    then general_question
    else intake

abbrev pub as_reply : MessageCategory → MessageCategory
as_reply general_question = answer
as_reply intake = answer
as_reply c = c

-- A pending question turns exactly the general questions and the intake messages into answers, and
-- leaves every other category as it is.
pub classify_message-as_reply :
    (u : Unicode) (s : Text) → classify_message u s true ≡ as_reply (classify_message u s false)
unfolding classify_message
classify_message-as_reply u s = ground arith
