-- ===== src/Telegram/Questions.antt =====
-- A question that is pending, over every sequence of calls.
use mathlib.Core.Path.{subst}
use developer_assistant.Prelude.Results.{Result, ok, err}
use developer_assistant.Prelude.{
  is_some, ℕ, String, Bool, true, false, not, ◌&&◌, some, List, [], ◌∷◌, str_eq, ◌≡◌, refl, sym, ap,
  ◌∙◌, arith, Bool-cases, Option-cases, inl, inr, All, eq_iff,
}
use developer_assistant.Prelude.Text.{Unicode}
use developer_assistant.Prelude.Dict.{get, get-put}
use developer_assistant.Telegram.Access.{is_allowed, FounderAllowlistConfig}
use developer_assistant.Telegram.Records.{
  TelegramEvent, SpecialistQuestion, Adapter, ProgressReport, Error, value_error,
}
use developer_assistant.Telegram.Commands.{parse_command}
use developer_assistant.Telegram.Adapter.{
  handle_event, handle_parsed, handle_freeform, with_commanded, with_classified,
  route_specialist_question,
}
use developer_assistant.Telegram.Reports.{
  Iso, send_progress_report, send_if, set_report_interval, update_project_state, in_range,
}
use developer_assistant.Telegram.Events.{
  questions_after_event, ensure_project-Keeps, dispatch_command-Keeps,
}
use developer_assistant.Telegram.Runs.{
  Call, event, route, report, set_interval, update, perform, run,
}

sent_config :
    (r : Result Error Bool) (k : String) (p : ProgressReport) (ts : String) (s : Adapter)
    → ((send_if r k p ts s).0.config ≡ s.config)
      × ((send_if r k p ts s).0.pending_questions ≡ s.pending_questions)
unfolding send_if
sent_config (err x) k p ts s = (refl, refl)
sent_config (ok false) k p ts s = (refl, refl)
sent_config (ok true) k p ts s = (refl, refl)

event_config :
    (u : Unicode) (e : TelegramEvent) (s : Adapter) → (handle_event u e s).0.config ≡ s.config
unfolding handle_event handle_parsed with_commanded with_classified handle_freeform
event_config u e s = elim (Bool-cases (is_allowed s.config e.chat_key e.user_key)) [
  | inl f ↦ elim (Option-cases (parse_command u e.text)) [
    | inl g ↦ rw (f, g, handle_event) refl
    | inr (cn, g) ↦ rw (f, g, handle_event) (dispatch_command-Keeps cn e s).0
  ]
  | inr f ↦ rw (f, handle_event) refl
]

set_config :
    (k : String) (m : ℕ) (s : Adapter)
    → ((set_report_interval k m s).0.config ≡ s.config)
      × ((set_report_interval k m s).0.pending_questions ≡ s.pending_questions)
unfolding set_report_interval
set_config k m s = elim (Bool-cases (in_range m)) [
  | inl e ↦ rw (e, set_report_interval) (refl, refl)
  | inr e ↦ rw (e, set_report_interval) (refl, refl)
]

route_config :
    (k : String) (q : SpecialistQuestion) (s : Adapter)
    → (route_specialist_question k q s).0.config ≡ s.config
unfolding route_specialist_question
route_config k q s = elim (Option-cases (get k s.pending_questions)) [
  | inl e ↦ rw (e, route_specialist_question) refl
  | inr (p, e) ↦ rw (e, route_specialist_question) refl
]

perform_config :
    (u : Unicode) (iso : Iso) (c : Call) (s : Adapter) → (perform u iso c s).config ≡ s.config
unfolding perform send_progress_report update_project_state
perform_config u iso (event e) s = event_config u e s
perform_config u iso (route k q) s = route_config k q s
perform_config u iso (report k p ts milestone) s = (sent_config _ k p ts s).0
perform_config u iso (set_interval k m) s = (set_config k m s).0
perform_config u iso (update k c) s = (ensure_project-Keeps k s).0

-- The call is no free message in the chat from an accepted sender.
abbrev pub LeavesChat : Unicode → FounderAllowlistConfig → String → Call → Type 0
LeavesChat u config k (event e) =
    ((is_allowed config e.chat_key e.user_key && not (is_some (parse_command u e.text)))
      && str_eq e.chat_key k)
    ≡ false
LeavesChat u config k (route j q) = Unit
LeavesChat u config k (report j p ts milestone) = Unit
LeavesChat u config k (set_interval j m) = Unit
LeavesChat u config k (update j c) = Unit

route_keeps :
    (j k : String) (r q : SpecialistQuestion) (s : Adapter)
    → get k s.pending_questions ≡ some q
    → get k (route_specialist_question j r s).0.pending_questions ≡ some q
unfolding route_specialist_question
route_keeps j k r q s h = elim (Option-cases (get j s.pending_questions)) [
  | inl e ↦
      rw (e, route_specialist_question)
        (ground (arith, get-put k j r s.pending_questions, (eq_iff j k).0, h, e))
  | inr (p, e) ↦ rw (e, route_specialist_question) h
]

question_stays :
    (u : Unicode) (iso : Iso) (k : String) (q : SpecialistQuestion) (c : Call) (s : Adapter)
    → LeavesChat u s.config k c
    → get k s.pending_questions ≡ some q
    → get k (perform u iso c s).pending_questions ≡ some q
unfolding perform send_progress_report update_project_state
question_stays u iso k q (event e) s l h = questions_after_event u e s k ∙ rw l h
question_stays u iso k q (route j r) s l h = route_keeps j k r q s h
question_stays u iso k q (report j p ts milestone) s l h = ap (get k) (sent_config _ j p ts s).1 ∙ h
question_stays u iso k q (set_interval j m) s l h = ap (get k) (set_config j m s).1 ∙ h
question_stays u iso k q (update j c) s l h = ap (get k) (ensure_project-Keeps j s).1 ∙ h

-- A pending question stays the chat's question through any calls among which there is no free
-- message in the chat from an accepted sender, and no other question can be routed to the chat.
pub question_waits :
    (u : Unicode) (iso : Iso) (k : String) (q : SpecialistQuestion) (cs : List Call) (s : Adapter)
    → get k s.pending_questions ≡ some q
    → All (LeavesChat u s.config k) cs
    → (get k (run u iso cs s).pending_questions ≡ some q)
      × ((r : SpecialistQuestion)
          → route_specialist_question k r (run u iso cs s) ≡ (run u iso cs s, err value_error))
unfolding run route_specialist_question
question_waits u iso k q [] s h l = (h, λ r. refused r)
  where
    refused : (r : SpecialistQuestion) → route_specialist_question k r s ≡ (s, err value_error)
    refused r = rw (h, route_specialist_question) refl
question_waits u iso k q (c ∷ cs) s h l =
    question_waits u iso k q cs (perform u iso c s) (question_stays u iso k q c s l.0 h)
      (subst (λ config. All (LeavesChat u config k) cs) (sym (perform_config u iso c s)) l.1)
