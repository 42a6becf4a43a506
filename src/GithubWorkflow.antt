-- ===== src/GithubWorkflow.antt =====
-- src/developer_assistant/github_workflow.py: where the credential comes from, which git commands
-- are built, and the requests to the REST API. The HTTP calls themselves are the callers'.
pub mod Credentials
pub mod Commands
pub mod Requests
pub mod Safety
pub mod Phrases
mod Samples
