-- ===== src/Telegram.antt =====
-- src/developer_assistant/telegram_adapter.py: who may talk to the assistant, what a message means,
-- and what the adapter does with it; and hermes_telegram_transport.py, its binding to the gateway.
pub mod Messages
pub mod Access
pub mod Records
pub mod Commands
pub mod Adapter
pub mod Events
pub mod Reports
pub mod Runs
pub mod Intervals
pub mod Questions
pub mod Spacing
pub mod Transport
pub mod Pairing
mod Samples
