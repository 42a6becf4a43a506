-- ===== src/PullRequests.antt =====
-- src/developer_assistant/github_pr_integration.py: the GitHub state of the projects, the operations
-- that open and read pull requests, and the gate before a merge. The executors are parameters.
pub mod Redaction
pub mod State
pub mod Host
pub mod Integration
pub mod Steps
pub mod Reports
pub mod Failing
pub mod Sound
pub mod Opening
mod Samples
