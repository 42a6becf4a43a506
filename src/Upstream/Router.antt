-- ===== src/Upstream/Router.antt =====
-- upstream_adapters/router.py: from a founder to the adapter of the newest active binding and the
-- newest session there.
use developer_assistant.Prelude.{
  ℕ, String, Bool, false, ◌&&◌, Option, none, some, List, [], if◌then◌else◌, str_eq,
}
use developer_assistant.Prelude.Text.{Text}
use developer_assistant.Prelude.Table.{select, fetchone}
use developer_assistant.Prelude.Newest.{newest_first}
use developer_assistant.Prelude.Results.{Result, ok, err}
use developer_assistant.Upstream.Identity.{Binding, BindingTable, is_active}
use developer_assistant.Upstream.Sessions.{Session, SessionTable, list_sessions}
use developer_assistant.Upstream.Adapters.{
  SendError, no_binding, no_session, Sent, UpstreamAdapter, Registry, get_adapter,
}

pub record OutboundIntent : Type 0 where
  pub kind : String
  pub message_text : Text
  pub purpose : String
  pub escalation_id : Option ℕ
  pub originating_runtime : Text
  pub proposed_action : Text
  pub trigger_kind : Text
  pub recommended_default : Text
  pub impact : Text
  pub urgency : String
  pub response_modes : Option (List String)
  pub parent_message_id_upstream : Option String

-- `m` and then `f`, where `m` raises nothing.
abbrev pub and_then :
    {A B : Type 0} → Result SendError A → (A → Result SendError B) → Result SendError B
and_then (err e) f = err e
and_then (ok a) f = f a

unfoldable pub active_of : String → Binding → Bool
unfolding is_active
active_of founder r = str_eq r.founder_id founder && is_active r

abbrev pub adapter_of : Option Binding → Result SendError String
adapter_of none = err no_binding
adapter_of (some r) = ok r.adapter_id

-- ORDER BY bound_at DESC LIMIT 1
unfoldable pub resolve_adapter_id : String → BindingTable → Result SendError String
unfolding active_of
resolve_adapter_id founder t =
    adapter_of (fetchone (newest_first (λ r. r.bound_at) (select (active_of founder) t.rows)))

unfoldable pub on_adapter : String → Session → Bool
on_adapter adapter r = str_eq r.adapter_id adapter

abbrev pub session_of : Option Session → Result SendError String → Result SendError String
session_of none rest = rest
session_of (some r) rest = ok r.session_id

unfoldable pub resolve_session_id : String → String → SessionTable → Result SendError String
unfolding on_adapter
resolve_session_id founder adapter t =
    session_of
      (fetchone (select (on_adapter adapter) (list_sessions (some founder) (some false) t)))
      (session_of (fetchone (select (on_adapter adapter) (list_sessions (some founder) none t)))
        (err no_session))

abbrev or_zero : Option ℕ → ℕ
or_zero none = 0
or_zero (some i) = i

abbrev or_empty : Option (List String) → List String
or_empty none = []
or_empty (some ms) = ms

unfoldable pub dispatch :
    OutboundIntent
    → UpstreamAdapter
    → String
    → String
    → String
    → SessionTable
    → Result SendError Sent
dispatch intent adapter adapter_id founder session_id sessions =
    if str_eq intent.kind "approval_prompt"
    then adapter.outbound_approval_prompt
        (record {
          escalation_id = or_zero intent.escalation_id;
          adapter_id = adapter_id;
          founder_id = founder;
          session_id = session_id;
          prompt_text = intent.message_text;
          originating_runtime = intent.originating_runtime;
          proposed_action = intent.proposed_action;
          trigger_kind = intent.trigger_kind;
          recommended_default = intent.recommended_default;
          impact = intent.impact;
          urgency = intent.urgency;
          response_modes = or_empty intent.response_modes;
        })
        sessions
    else adapter.outbound_message
        (record {
          adapter_id = adapter_id;
          founder_id = founder;
          session_id = session_id;
          message_text = intent.message_text;
          purpose = intent.purpose;
          parent_message_id_upstream = intent.parent_message_id_upstream;
        })
        sessions

unfoldable pub send_outbound_to_founder :
    Registry → String → OutboundIntent → BindingTable → SessionTable → Result SendError Sent
unfolding dispatch
send_outbound_to_founder registry founder intent bindings sessions =
    and_then (resolve_adapter_id founder bindings) (λ adapter_id.
      and_then (get_adapter adapter_id registry) (λ adapter.
        and_then (resolve_session_id founder adapter_id sessions)
          (λ session_id. dispatch intent adapter adapter_id founder session_id sessions)))
