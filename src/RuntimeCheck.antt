-- ===== src/RuntimeCheck.antt =====
-- src/developer_assistant/runtime_check.py: the check before a runtime starts. The file system, the
-- database, the hash and the tools of Hermes are parameters.
pub mod Config
pub mod Host
pub mod Check
pub mod Passing
pub mod Prompt
pub mod Ready
pub mod Markers
pub mod Toolsets
mod Samples
