-- ===== src/Telegram/Events.antt =====
-- What an event leaves in the adapter: the pending questions and the written decisions.
use mathlib.Core.List.{append-nil}
use developer_assistant.Prelude.{
  String, Bool, true, not, ◌&&◌, none, List, [], ◌∷◌, ◌++◌, if◌then◌else◌, is_some, str_eq, ◌≡◌,
  refl, sym, ap, ◌∙◌, eq_iff, arith, Bool-cases, Option-cases, inl, inr,
}
use developer_assistant.Prelude.Text.{Text, Unicode}
use developer_assistant.Prelude.Dict.{get, get-remove}
use developer_assistant.Telegram.Messages.{MessageCategory, classify_message, is_durable_decision}
use developer_assistant.Telegram.Access.{is_allowed}
use developer_assistant.Telegram.Records.{
  CommandName, new_project, status, decisions, pause, resume, TelegramEvent, EventResult, commanded,
  classified, Adapter,
}
use developer_assistant.Telegram.Commands.{
  parse_command, dispatch_command, cmd_new_project, cmd_status, cmd_decisions, cmd_pause,
  cmd_resume, ensure_project, set_paused,
}
use developer_assistant.Telegram.Adapter.{
  handle_event, handle_parsed, handle_freeform, with_commanded, with_classified, refusal, decides,
  closes, decision_text,
}

-- The parts of the adapter that no command touches.
abbrev pub Keeps : Adapter → Adapter → Type 0
Keeps s t =
    (t.config ≡ s.config)
    × (t.pending_questions ≡ s.pending_questions)
    × (t.written ≡ s.written)
    × (t.sent ≡ s.sent)
    × (t.last_report_ts ≡ s.last_report_ts)

pub ensure_project-Keeps : (k : String) (s : Adapter) → Keeps s (ensure_project k s)
unfolding ensure_project
ensure_project-Keeps k s = elim (Option-cases (get k s.projects)) [
  | inl e ↦ rw (e, ensure_project) (refl, refl, refl, refl, refl)
  | inr (p, e) ↦ rw (e, ensure_project) (refl, refl, refl, refl, refl)
]

pub dispatch_command-Keeps :
    (cn : CommandName) (e : TelegramEvent) (s : Adapter) → Keeps s (dispatch_command cn e s).0
unfolding dispatch_command cmd_new_project cmd_status cmd_decisions cmd_pause cmd_resume set_paused
dispatch_command-Keeps new_project e s = ensure_project-Keeps e.chat_key s
dispatch_command-Keeps status e s = ensure_project-Keeps e.chat_key s
dispatch_command-Keeps decisions e s = ensure_project-Keeps e.chat_key s
dispatch_command-Keeps pause e s = ensure_project-Keeps e.chat_key s
dispatch_command-Keeps resume e s = ensure_project-Keeps e.chat_key s

-- A free message from an accepted sender.
abbrev pub is_free_message : Unicode → TelegramEvent → Adapter → Bool
is_free_message u e s =
    is_allowed s.config e.chat_key e.user_key && not (is_some (parse_command u e.text))

reply_closes : (u : Unicode) (s : Text) → closes (classify_message u s true) ≡ true
unfolding classify_message
reply_closes u s = ground arith

freeform_questions :
    (u : Unicode) (e : TelegramEvent) (s : Adapter) (k : String)
    → get k (handle_freeform u e s).0.pending_questions
      ≡ (if str_eq e.chat_key k then none else get k s.pending_questions)
unfolding handle_freeform
freeform_questions u e s k = elim (Option-cases (get e.chat_key s.pending_questions)) [
  | inl f ↦ rw f (elim (Bool-cases (str_eq e.chat_key k)) [
    | inl g ↦ rw g (sym (ap (λ j. get j s.pending_questions) ((eq_iff e.chat_key k).0 g)) ∙ f)
    | inr g ↦ rw g refl
  ])
  | inr (q, f) ↦ rw (f, reply_closes u e.text) (get-remove k e.chat_key s.pending_questions)
]

-- After an event no question is pending in the chat of a free message from an accepted sender, and
-- every other chat has the question it had; a command or a refused event closes none.
pub questions_after_event :
    (u : Unicode) (e : TelegramEvent) (s : Adapter) (k : String)
    → get k (handle_event u e s).0.pending_questions
      ≡ (if is_free_message u e s && str_eq e.chat_key k then none else get k s.pending_questions)
unfolding handle_event handle_parsed with_commanded with_classified
questions_after_event u e s k = elim (Bool-cases (is_allowed s.config e.chat_key e.user_key)) [
  | inl f ↦ elim (Option-cases (parse_command u e.text)) [
    | inl g ↦ rw (f, g) (freeform_questions u e s k)
    | inr (cn, g) ↦ rw (f, g) (ap (get k) (dispatch_command-Keeps cn e s).1)
  ]
  | inr f ↦ rw f refl
]

-- The decision that the answer to an event reports.
abbrev pub reported : EventResult → List (String × Text)
reported (commanded r) = []
reported (classified r) =
    if r.durable_decision && decides r.category
    then ("docs/questions/", decision_text r.chat_key r.text) ∷ []
    else []

freeform_written :
    (u : Unicode) (e : TelegramEvent) (s : Adapter)
    → (handle_freeform u e s).0.written
      ≡ s.written ++ reported (classified (handle_freeform u e s).1)
unfolding handle_freeform
freeform_written u e s = by_case (is_durable_decision u e.text) (classify_message u e.text _)
  where
    by_case :
        (d : Bool) (c : MessageCategory)
        → (if d && decides c
            then s.written ++ ("docs/questions/", decision_text e.chat_key e.text) ∷ []
            else s.written)
          ≡ s.written
            ++ (if d && decides c
                then ("docs/questions/", decision_text e.chat_key e.text) ∷ []
                else [])
    by_case d c = elim (Bool-cases (d && decides c)) [
      | inl f ↦ rw f refl
      | inr f ↦ rw f (sym (append-nil s.written))
    ]

-- An event writes an artifact exactly if it is answered as a durable approval, rejection or answer,
-- and then this one decision with the chat and the text of the answer.
pub written_is_reported :
    (u : Unicode) (e : TelegramEvent) (s : Adapter)
    → (handle_event u e s).0.written ≡ s.written ++ reported (handle_event u e s).1
unfolding handle_event handle_parsed with_commanded with_classified refusal
written_is_reported u e s = elim (Bool-cases (is_allowed s.config e.chat_key e.user_key)) [
  | inl f ↦ elim (Option-cases (parse_command u e.text)) [
    | inl g ↦ rw (f, g) (freeform_written u e s)
    | inr (cn, g) ↦ rw (f, g) ((dispatch_command-Keeps cn e s).2 ∙ sym (append-nil s.written))
  ]
  | inr f ↦ rw f (sym (append-nil s.written))
]
