-- ===== src/Telegram/Reports.antt =====
-- telegram_adapter.py: progress reports, their intervals and the state of a project. The minutes of
-- an interval are a natural number: a negative one is refused as 0 is.
use developer_assistant.Prelude.{
  ℕ, String, Bool, true, false, not, ◌&&◌, ◌||◌, Option, none, some, [], ◌∷◌, ◌++◌, if◌then◌else◌,
  leb, ◌+◌, ◌*◌,
}
use developer_assistant.Prelude.Text.{Text}
use developer_assistant.Prelude.Dict.{get, put}
use developer_assistant.Prelude.Results.{Result, ok, err}
use developer_assistant.Telegram.Records.{
  Error, value_error, type_error, ProgressReport, report_to_russian_text, Adapter,
}
use developer_assistant.Telegram.Commands.{project_of, ensure_project}

-- A time that `datetime.fromisoformat` reads, in microseconds; `aware` says whether it has an offset.
pub record Stamp : Type 0 where
  pub micros : ℕ
  pub aware : Bool

-- `datetime.fromisoformat`, where `none` is a ValueError.
abbrev pub Iso : Type 0
Iso = String → Option Stamp

abbrev pub minute : ℕ
minute = 60 * 1000000

abbrev pub in_range : ℕ → Bool
in_range m = leb 30 m && leb m 60

unfoldable pub interval_of : String → Adapter → ℕ
interval_of chat_key s = elim (get chat_key s.report_intervals) [
  | some m ↦ if in_range m then m else 45
  | none ↦ 45
]

-- Two times of which one has an offset and the other has none cannot be subtracted.
unfoldable pub has_passed : ℕ → Option Stamp → Option Stamp → Result Error Bool
has_passed interval (some last) (some current) =
    if (last.aware && current.aware) || (not last.aware && not current.aware)
    then ok (leb (last.micros + interval * minute) current.micros)
    else err type_error
has_passed interval _ _ = ok true

unfoldable pub is_report_due : Iso → String → String → Bool → Adapter → Result Error Bool
unfolding interval_of has_passed
is_report_due iso chat_key current_ts is_milestone s =
    if is_milestone then ok true else elim (get chat_key s.last_report_ts) [
      | none ↦ ok true
      | some last_ts ↦ has_passed (interval_of chat_key s) (iso last_ts) (iso current_ts)
    ]

unfoldable pub send_if :
    Result Error Bool → String → ProgressReport → String → Adapter → Adapter × Result Error Text
send_if (err x) chat_key report current_ts s = (s, err x)
send_if (ok false) chat_key report current_ts s = (s, ok [])
send_if (ok true) chat_key report current_ts s = (
  record s {
    sent = s.sent ++ (chat_key, report_to_russian_text report) ∷ [];
    last_report_ts = put chat_key current_ts s.last_report_ts;
  },
  ok (report_to_russian_text report),
)

unfoldable pub send_progress_report :
    Iso → String → ProgressReport → String → Bool → Adapter → Adapter × Result Error Text
unfolding is_report_due send_if
send_progress_report iso chat_key report current_ts is_milestone s =
    send_if (is_report_due iso chat_key current_ts is_milestone s) chat_key report current_ts s

unfoldable pub set_report_interval : String → ℕ → Adapter → Adapter × Result Error Unit
set_report_interval chat_key minutes s =
    if in_range minutes
    then (record s { report_intervals = put chat_key minutes s.report_intervals }, ok tt)
    else (s, err value_error)

-- The keyword arguments of `update_project_state`.
pub record ProjectChange : Type 0 where
  pub paused : Option Bool
  pub phase : Option Text
  pub active_ticket : Option Text
  pub active_pr : Option Text
  pub blockers : Option Text
  pub pending_decisions : Option Text

abbrev given {ℓ} : {A : Type ℓ} → Option A → A → A
given none a = a
given (some b) a = b

unfoldable pub update_project_state : String → ProjectChange → Adapter → Adapter
unfolding project_of ensure_project
update_project_state chat_key c s =
    let t = ensure_project chat_key s in
    let p = project_of chat_key s in
    record t {
      projects =
          put chat_key
            (record {
              paused = given c.paused p.paused;
              phase = given c.phase p.phase;
              active_ticket = given c.active_ticket p.active_ticket;
              active_pr = given c.active_pr p.active_pr;
              blockers = given c.blockers p.blockers;
              pending_decisions = given c.pending_decisions p.pending_decisions;
            })
            t.projects;
    }
