-- ===== src/Upstream.antt =====
-- The upstream side: who a founder is (src/developer_assistant/founder_identity.py), the sessions of
-- the chats (upstream_sessions.py), and the adapters and the router of upstream_adapters/.
pub mod Identity
pub mod Sessions
pub mod Adapters
pub mod Telegram
pub mod Router
pub mod Bindings
pub mod Reply
mod Samples
