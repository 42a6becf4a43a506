-- ===== src/Telegram/Runs.antt =====
-- Every sequence of calls of the adapter: what it never changes.
use developer_assistant.Prelude.{ℕ, String, Bool, false, List, [], ◌∷◌, ◌≡◌, refl, ap, ◌∙◌, All}
use developer_assistant.Prelude.Text.{Unicode}
use developer_assistant.Telegram.Access.{is_allowed}
use developer_assistant.Telegram.Records.{
  TelegramEvent, SpecialistQuestion, Adapter, ProgressReport,
}
use developer_assistant.Telegram.Adapter.{handle_event, route_specialist_question}
use developer_assistant.Telegram.Reports.{
  Iso, ProjectChange, send_progress_report, set_report_interval, update_project_state,
}

-- A call of a method of the adapter, with its arguments.
pub data Call : Type 0 where
  event : TelegramEvent → Call
  route : String → SpecialistQuestion → Call
  report : String → ProgressReport → String → Bool → Call
  set_interval : String → ℕ → Call
  update : String → ProjectChange → Call

unfoldable pub perform : Unicode → Iso → Call → Adapter → Adapter
perform u iso (event e) s = (handle_event u e s).0
perform u iso (route k q) s = (route_specialist_question k q s).0
perform u iso (report k r ts milestone) s = (send_progress_report iso k r ts milestone s).0
perform u iso (set_interval k m) s = (set_report_interval k m s).0
perform u iso (update k c) s = update_project_state k c s

unfoldable pub run : Unicode → Iso → List Call → Adapter → Adapter
run u iso [] s = s
run u iso (c ∷ cs) s = run u iso cs (perform u iso c s)

-- The events come from senders whom the allowlist refuses.
abbrev pub IsRefused : Adapter → TelegramEvent → Type 0
IsRefused s e = is_allowed s.config e.chat_key e.user_key ≡ false

abbrev events : List TelegramEvent → List Call
events [] = []
events (e ∷ es) = event e ∷ events es

refused_event :
    (u : Unicode) (e : TelegramEvent) (s : Adapter) → IsRefused s e → (handle_event u e s).0 ≡ s
unfolding handle_event
refused_event u e s h = rw h refl

-- Whatever senders outside the allowlist send, the adapter stays exactly as it is: no project, no
-- question, no interval changes, and nothing is written or sent.
pub strangers_change_nothing :
    (u : Unicode) (iso : Iso) (s : Adapter) (es : List TelegramEvent)
    → All (IsRefused s) es
    → run u iso (events es) s ≡ s
unfolding run perform
strangers_change_nothing u iso s [] h = refl
strangers_change_nothing u iso s (e ∷ es) h =
    ap (run u iso (events es)) (refused_event u e s h.0) ∙ strangers_change_nothing u iso s es h.1
