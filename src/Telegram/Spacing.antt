-- ===== src/Telegram/Spacing.antt =====
-- When the next progress report is due.
use developer_assistant.Prelude.{
  ◌⊎◌, ℕ, ◌+◌, ◌*◌, String, Bool, true, false, some, ◌++◌, List, [], ◌∷◌, leb, ◌≡◌, refl, ap, ◌∙◌,
  eq_iff, Bool-cases, inl, inr,
}
use developer_assistant.Prelude.Text.{Text}
use developer_assistant.Prelude.Dict.{put, get-put}
use developer_assistant.Prelude.Results.{ok, err}
use developer_assistant.Telegram.Records.{
  Adapter, ProgressReport, report_to_russian_text, type_error,
}
use developer_assistant.Telegram.Reports.{
  Stamp, Iso, send_progress_report, send_if, is_report_due, has_passed, interval_of, minute,
}

kinds_differ :
    (a b : Stamp) (interval : ℕ)
    → a.aware ≡ true
    → b.aware ≡ false
    → has_passed interval (some a) (some b) ≡ err type_error
unfolding has_passed
kinds_differ a b interval g h = rw (g, h) refl

module _ (iso : Iso) (k : String) (report : ProgressReport) (milestone : Bool) (s : Adapter) where
  module _ (ts1 ts2 : String) (a b : Stamp) where
    state_after :
        is_report_due iso k ts1 milestone s ≡ ok true
        → (send_progress_report iso k report ts1 milestone s).0 ≡ record s {
          sent = s.sent ++ (k, report_to_russian_text report) ∷ [];
          last_report_ts = put k ts1 s.last_report_ts;
        }
    unfolding send_progress_report send_if
    state_after d = rw d refl

    due_after :
        (sent : List (String × Text))
        → iso ts1 ≡ some a
        → iso ts2 ≡ some b
        → is_report_due iso k ts2 false
            (record s { sent = sent; last_report_ts = put k ts1 s.last_report_ts })
          ≡ has_passed (interval_of k s) (some a) (some b)
    unfolding is_report_due interval_of
    due_after sent e f = rw (get-put k k ts1 s.last_report_ts, (eq_iff k k).1 refl, e, f) refl

    due_by_stamps :
        is_report_due iso k ts1 milestone s ≡ ok true
        → iso ts1 ≡ some a
        → iso ts2 ≡ some b
        → is_report_due iso k ts2 false (send_progress_report iso k report ts1 milestone s).0
          ≡ has_passed (interval_of k s) (some a) (some b)
    due_by_stamps d e f = ap (is_report_due iso k ts2 false) (state_after d) ∙ due_after _ e f

    -- After a report has gone out, the next one that is no milestone is due exactly once the
    -- interval of the chat has passed, for times that both have an offset or both have none.
    pub next_report_is_due :
        is_report_due iso k ts1 milestone s ≡ ok true
        → iso ts1 ≡ some a
        → iso ts2 ≡ some b
        → a.aware ≡ b.aware
        → is_report_due iso k ts2 false (send_progress_report iso k report ts1 milestone s).0
          ≡ ok (leb (a.micros + interval_of k s * minute) b.micros)
    unfolding has_passed
    next_report_is_due d e f g = due_by_stamps d e f ∙ same_kind (Bool-cases b.aware)
      where
        same_kind :
            (b.aware ≡ true) ⊎ (b.aware ≡ false)
            → has_passed (interval_of k s) (some a) (some b)
              ≡ ok (leb (a.micros + interval_of k s * minute) b.micros)
        same_kind (inl h) = rw (g, h, has_passed) refl
        same_kind (inr h) = rw (g, h, has_passed) refl

    -- After a report has gone out at a time with an offset, sending one that is no milestone at a
    -- time without an offset raises a TypeError and leaves the adapter as it is.
    pub mixed_times_raise :
        is_report_due iso k ts1 milestone s ≡ ok true
        → iso ts1 ≡ some a
        → iso ts2 ≡ some b
        → a.aware ≡ true
        → b.aware ≡ false
        → send_progress_report iso k report ts2 false
            (send_progress_report iso k report ts1 milestone s).0
          ≡ ((send_progress_report iso k report ts1 milestone s).0, err type_error)
    unfolding send_progress_report send_if
    mixed_times_raise d e f g h =
        ap (λ r. send_if r k report ts2 after) (due_by_stamps d e f ∙ raises)
      where
        after : Adapter
        after = (send_progress_report iso k report ts1 milestone s).0

        raises : has_passed (interval_of k s) (some a) (some b) ≡ err type_error
        raises = kinds_differ a b (interval_of k s) g h
