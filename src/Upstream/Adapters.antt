-- ===== src/Upstream/Adapters.antt =====
-- upstream_adapters/base.py and registry.py: the operations of an adapter as a record of functions on
-- the two tables, and the registry of the adapters in the order of their registration. A message that
-- goes out is the chat and the text that the dispatcher of the Hermes skills is given.
use developer_assistant.Prelude.{
  ℕ, String, Bool, Option, List, [], ◌∷◌, ◌++◌, if◌then◌else◌, str_eq, one_of, map,
}
use developer_assistant.Prelude.Text.{Text}
use developer_assistant.Prelude.Results.{Result, ok, err}
use developer_assistant.Upstream.Identity.{BindingTable}
use developer_assistant.Upstream.Sessions.{SessionTable}

pub record InboundMessageInput : Type 0 where
  pub adapter_id : String
  pub upstream_user_id : String
  pub upstream_chat_id : String
  pub message_text : Text
  pub message_id : String
  pub received_at : String
  pub reply_to_message_id : Option String
  pub attachments : List String

pub record InboundMessageResult : Type 0 where
  pub adapter_id : String
  pub founder_id : String
  pub session_id : String
  pub message_text : Text
  pub message_id_upstream : String
  pub received_at : String
  pub reply_to_message_id_upstream : Option String

pub record DroppedInboundResult : Type 0 where
  pub adapter_id : String
  pub upstream_user_id : String
  pub reason : String
  pub dropped : Bool

pub data Inbound : Type 0 where
  accepted : InboundMessageResult → Inbound
  refused : DroppedInboundResult → Inbound

pub record OutboundMessageInput : Type 0 where
  pub adapter_id : String
  pub founder_id : String
  pub session_id : String
  pub message_text : Text
  pub purpose : String
  pub parent_message_id_upstream : Option String

pub record ApprovalPromptInput : Type 0 where
  pub escalation_id : ℕ
  pub adapter_id : String
  pub founder_id : String
  pub session_id : String
  pub prompt_text : Text
  pub originating_runtime : Text
  pub proposed_action : Text
  pub trigger_kind : Text
  pub recommended_default : Text
  pub impact : Text
  pub urgency : String
  pub response_modes : List String

pub record BindFounderIdentityInput : Type 0 where
  pub founder_id : String
  pub adapter_id : String
  pub upstream_user_id : String
  pub display_name : Option String

pub record GetOrCreateSessionInput : Type 0 where
  pub session_id : String
  pub adapter_id : String
  pub founder_id : String
  pub upstream_chat_id : String

pub record GetOrCreateSessionResult : Type 0 where
  pub session_id : String
  pub adapter_id : String
  pub founder_id : String
  pub upstream_chat_id : String
  pub created_at : ℕ
  pub last_message_at : ℕ
  pub paused : Bool
  pub current_project_id : Option ℕ

-- `no_binding`, `no_session` and `not_registered` are the router's and the registry's errors,
-- `session_not_found` the ValueError of an adapter.
pub data SendError : Type 0 where
  no_binding no_session not_registered duplicate session_not_found : SendError

-- The payload that the dispatcher is given, and the id that it answers with.
pub record Sent : Type 0 where
  pub chat_id : String
  pub text : Text
  pub message_id : String

-- The three operations of UpstreamAdapter that messages go through; Telegram has the other two. The tables stand for the adapter's connection; the number is the time.
pub record UpstreamAdapter : Type 0 where
  pub inbound_message :
      ℕ → InboundMessageInput → BindingTable → SessionTable → SessionTable × Inbound
  pub outbound_message : OutboundMessageInput → SessionTable → Result SendError Sent
  pub outbound_approval_prompt : ApprovalPromptInput → SessionTable → Result SendError Sent

-- The set of ids is that of the list.
abbrev pub Registry : Type 0
Registry = List (String × UpstreamAdapter)

-- AdapterRegistry.get
unfoldable pub get_adapter : String → Registry → Result SendError UpstreamAdapter
get_adapter k [] = err not_registered
get_adapter k ((j, a) ∷ r) = let rest = get_adapter k r in if str_eq j k then ok a else rest

-- AdapterRegistry.has
unfoldable pub has_adapter : String → Registry → Bool
has_adapter k r = one_of k (map (λ e. e.0) r)

-- AdapterRegistry.register
unfoldable pub register : String → UpstreamAdapter → Registry → Registry × Result SendError Unit
register k a r = if has_adapter k r then (r, err duplicate) else (r ++ (k, a) ∷ [], ok tt)
