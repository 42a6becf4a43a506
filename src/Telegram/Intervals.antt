-- ===== src/Telegram/Intervals.antt =====
-- The intervals of the progress reports, over every sequence of calls.
use developer_assistant.Prelude.Results.{Result, ok, err}
use developer_assistant.Prelude.{
  ℕ, String, Bool, true, false, none, some, List, [], ◌∷◌, ◌≡◌, refl, sym, ap, ◌∙◌, arith,
  Bool-cases, Option-cases, inl, inr,
}
use developer_assistant.Prelude.Text.{Unicode}
use developer_assistant.Prelude.Dict.{get, put, get-put}
use developer_assistant.Telegram.Access.{is_allowed, FounderAllowlistConfig}
use developer_assistant.Telegram.Records.{
  CommandName, new_project, status, decisions, pause, resume, TelegramEvent, SpecialistQuestion,
  Adapter, ProgressReport, new_adapter, Error,
}
use developer_assistant.Telegram.Commands.{
  parse_command, dispatch_command, cmd_new_project, cmd_status, cmd_decisions, cmd_pause,
  cmd_resume, ensure_project, set_paused,
}
use developer_assistant.Telegram.Adapter.{
  handle_event, handle_parsed, handle_freeform, with_commanded, with_classified,
  route_specialist_question,
}
use developer_assistant.Telegram.Reports.{
  Iso, send_progress_report, send_if, set_report_interval, update_project_state, in_range,
  interval_of,
}
use developer_assistant.Telegram.Runs.{
  Call, event, route, report, set_interval, update, perform, run,
}

-- Every interval that is set is between 30 and 60 minutes.
unfoldable pub HasIntervals : Adapter → Type 0
HasIntervals s = (k : String) (m : ℕ) → get k s.report_intervals ≡ some m → in_range m ≡ true

put_interval :
    (s : Adapter) (j : String) (n : ℕ)
    → in_range n ≡ true
    → HasIntervals s
    → (k : String) (m : ℕ) → get k (put j n s.report_intervals) ≡ some m
    → in_range m ≡ true
unfolding HasIntervals
put_interval s j n r h k m e = ground (arith, get-put k j n s.report_intervals, h k m)

same_intervals :
    (s t : Adapter) → t.report_intervals ≡ s.report_intervals → HasIntervals s → HasIntervals t
unfolding HasIntervals
same_intervals s t e h k m f = h k m (sym (ap (get k) e) ∙ f)

ensure_intervals :
    (k : String) (s : Adapter) → (ensure_project k s).report_intervals ≡ s.report_intervals
unfolding ensure_project
ensure_intervals k s = elim (Option-cases (get k s.projects)) [
  | inl e ↦ rw (e, ensure_project) refl
  | inr (p, e) ↦ rw (e, ensure_project) refl
]

dispatch-HasIntervals :
    (cn : CommandName) (e : TelegramEvent) (s : Adapter)
    → HasIntervals s
    → HasIntervals (dispatch_command cn e s).0
unfolding dispatch_command cmd_new_project cmd_status cmd_decisions cmd_pause cmd_resume set_paused
    HasIntervals
dispatch-HasIntervals new_project e s h =
    put_interval (ensure_project e.chat_key s) e.chat_key 45 refl
      (same_intervals s (ensure_project e.chat_key s) (ensure_intervals e.chat_key s) h)
dispatch-HasIntervals status e s h =
    same_intervals s (dispatch_command status e s).0 (ensure_intervals e.chat_key s) h
dispatch-HasIntervals decisions e s h =
    same_intervals s (dispatch_command decisions e s).0 (ensure_intervals e.chat_key s) h
dispatch-HasIntervals pause e s h =
    same_intervals s (dispatch_command pause e s).0 (ensure_intervals e.chat_key s) h
dispatch-HasIntervals resume e s h =
    same_intervals s (dispatch_command resume e s).0 (ensure_intervals e.chat_key s) h

event-HasIntervals :
    (u : Unicode) (e : TelegramEvent) (s : Adapter)
    → HasIntervals s
    → HasIntervals (handle_event u e s).0
unfolding handle_event handle_parsed with_commanded with_classified handle_freeform
event-HasIntervals u e s h = elim (Bool-cases (is_allowed s.config e.chat_key e.user_key)) [
  | inl f ↦ elim (Option-cases (parse_command u e.text)) [
    | inl g ↦ rw (f, g, handle_event) (same_intervals s (handle_freeform u e s).0 refl h)
    | inr (cn, g) ↦ rw (f, g, handle_event) (dispatch-HasIntervals cn e s h)
  ]
  | inr f ↦ rw (f, handle_event) h
]

sent-HasIntervals :
    (r : Result Error Bool) (k : String) (p : ProgressReport) (ts : String) (s : Adapter)
    → HasIntervals s
    → HasIntervals (send_if r k p ts s).0
unfolding send_if HasIntervals
sent-HasIntervals (err x) k p ts s h = h
sent-HasIntervals (ok false) k p ts s h = h
sent-HasIntervals (ok true) k p ts s h = h

set-HasIntervals :
    (k : String) (m : ℕ) (s : Adapter) → HasIntervals s → HasIntervals (set_report_interval k m s).0
unfolding set_report_interval HasIntervals
set-HasIntervals k m s h = elim (Bool-cases (in_range m)) [
  | inl e ↦ rw (e, set_report_interval) (put_interval s k m e h)
  | inr e ↦ rw (e, set_report_interval) h
]

route-HasIntervals :
    (k : String) (q : SpecialistQuestion) (s : Adapter)
    → HasIntervals s
    → HasIntervals (route_specialist_question k q s).0
unfolding route_specialist_question HasIntervals
route-HasIntervals k q s h = elim (Option-cases (get k s.pending_questions)) [
  | inl e ↦ rw (e, route_specialist_question) h
  | inr (p, e) ↦ rw (e, route_specialist_question) h
]

perform-HasIntervals :
    (u : Unicode) (iso : Iso) (c : Call) (s : Adapter)
    → HasIntervals s
    → HasIntervals (perform u iso c s)
unfolding perform send_progress_report update_project_state
perform-HasIntervals u iso (event e) s h = event-HasIntervals u e s h
perform-HasIntervals u iso (route k q) s h = route-HasIntervals k q s h
perform-HasIntervals u iso (report k p ts milestone) s h = sent-HasIntervals _ k p ts s h
perform-HasIntervals u iso (set_interval k m) s h = set-HasIntervals k m s h
perform-HasIntervals u iso (update k c) s h =
    same_intervals s (update_project_state k c s) (ensure_intervals k s) h

run-HasIntervals :
    (u : Unicode) (iso : Iso) (cs : List Call) (s : Adapter)
    → HasIntervals s
    → HasIntervals (run u iso cs s)
unfolding run
run-HasIntervals u iso [] s h = h
run-HasIntervals u iso (c ∷ cs) s h =
    run-HasIntervals u iso cs (perform u iso c s) (perform-HasIntervals u iso c s h)

set_interval_is_used :
    (k : String) (s : Adapter)
    → HasIntervals s
    → interval_of k s ≡ elim (get k s.report_intervals) [ some m ↦ m | none ↦ 45 ]
unfolding HasIntervals interval_of
set_interval_is_used k s h = elim (Option-cases (get k s.report_intervals)) [
  | inl e ↦ rw (e, interval_of) refl
  | inr (m, e) ↦ rw (e, interval_of, h k m e) refl
]

none_is_set : (config : FounderAllowlistConfig) → HasIntervals (new_adapter config)
unfolding HasIntervals get
none_is_set config k m e = cc

-- After any sequence of calls from a new adapter the interval that a chat's reports keep is the one
-- that is set for the chat, or 45 where none is set: the replacement of intervals outside 30 to 60
-- minutes never takes place.
pub interval_is_set :
    (u : Unicode) (iso : Iso) (config : FounderAllowlistConfig) (cs : List Call) (k : String)
    → interval_of k (run u iso cs (new_adapter config))
      ≡ elim (get k (run u iso cs (new_adapter config)).report_intervals) [ some m ↦ m | none ↦ 45 ]
interval_is_set u iso config cs k =
    set_interval_is_used k _ (run-HasIntervals u iso cs (new_adapter config) (none_is_set config))
