-- ===== src/EscalationPolicy.antt =====
-- src/developer_assistant/hermes_plugins/dev_assist_escalation_policy.
pub mod Action
pub mod Rules
pub mod Redaction
pub mod Classifier
pub mod Plugin
