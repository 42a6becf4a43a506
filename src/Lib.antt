-- ===== src/Lib.antt =====
-- Verification of the operational core of the developer assistant: the helpers that its runtimes
-- share through one SQLite database, the policy that decides what an agent may do, the adapter
-- through which the founder answers, the git commands and pull requests, and the check before a
-- runtime starts. The parts meet in the table of escalations: the policy writes a row when it
-- blocks a call, and the escalation helpers show the row to the founder and take the answer. Paths
-- are from the repository's root.
--
-- WorkQueue models src/developer_assistant/work_queue.py over the table work_items of
-- db/migrations/004_work_queue_and_escalations.sql: the table is a list of rows in the order of
-- their ids, each function of the file is the function of the same name, with the table, the time
-- and the arguments handed in, and the CHECK, UNIQUE and REFERENCES constraints are tests before
-- the insertion. An INSERT that is ignored or turned into an update takes an id of the table's
-- sequence, as SQLite does for AUTOINCREMENT keys, here and in Upstream. WorkQueue/Invariant,
-- Claiming, Draining, Leases, Keys, Dedup and Attempts hold the proofs. WorkQueue/Tools models the
-- tools of hermes_plugins/dev_assist_work_queue/tools.py, with a proof.
--
-- Escalations models src/developer_assistant/escalations.py over the table escalations in the same
-- way; Escalations/Lifecycle and Reading hold the proofs.
--
-- EscalationPolicy models src/developer_assistant/hermes_plugins/dev_assist_escalation_policy:
-- Rules and its children hold the forty rules of rules.py, Redaction and Classifier the files
-- redaction.py and concept_classifier.py, and Plugin the function pre_tool_call of plugin.py,
-- whose blocks call write_escalation of Escalations. The arguments of an action are texts, but for
-- the list allowed_files and the flag _llm_call. The anchor's rules come with the test of their
-- own specifications, since they are read from YAML. Rules/Order, Plugin/Decisions and
-- Plugin/Recording hold the proofs.
--
-- Telegram models src/developer_assistant/telegram_adapter.py: Messages has the classification,
-- Access the allowlist, Records, Commands, Adapter and Reports the class TelegramFounderAdapter
-- with its dictionaries as state. Events, Runs, Intervals, Questions and Spacing hold the proofs.
-- datetime.fromisoformat is a parameter.
--
-- GithubWorkflow models src/developer_assistant/github_workflow.py: Credentials, Commands and
-- Requests. The process that runs git, the environment, the file system and urllib's quote are
-- parameters. Safety and Phrases hold the proofs.
--
-- Regex reads the pattern texts of the program and matches them in the order of Python's
-- backtracking matcher. Prelude holds the Boolean tests, the predicates on lists, the statements
-- UPDATE … RETURNING and SELECT on rows, texts as lists of code points with Python's tests on
-- them, dictionaries and results.
--
-- Loops over rows, rules and texts are recursions on the list, so they need no fuel; a repetition
-- of a pattern may match at most as often as the text is long, since an empty match ends it. The
-- digits of a number take its successor as fuel, which Prelude/Decimal proves to be enough. Times
-- are natural numbers of microseconds: the program writes them all as ISO texts of the UTC offset,
-- and those compare as the times do.
--
-- Upstream models src/developer_assistant/founder_identity.py (Identity), upstream_sessions.py
-- (Sessions) and upstream_adapters/ (Adapters, Telegram, Router): the bindings of the founders and
-- the sessions are tables of rows, an adapter is a record of functions on these tables, and the
-- router goes from a founder to the newest binding, its adapter and the newest session. The
-- dispatcher of the Hermes tools is a parameter. Bindings and Reply hold the proofs.
--
-- PullRequests models src/developer_assistant/github_pr_integration.py: Redaction, State, Host
-- (the state of the class and its calls of the two executors, which are parameters and are
-- recorded in their order), Integration (the operations), Steps (a history of operations) and
-- Reports. It builds on GithubWorkflow. Failing, Sound and Opening hold the proofs.
--
-- RuntimeCheck models src/developer_assistant/runtime_check.py: Config (the readers of
-- config.yaml), Host (the machine, whose files, links, database, hash and tools are parameters)
-- and Check (the checks in their order, with marker and error, and the exit code). Passing,
-- Prompt, Ready, Markers and Toolsets hold the proofs.
--
-- ModelCatalog models src/developer_assistant/model_catalog.py: Table (the reading of
-- MODEL-CATALOG.md), Verify and Probe. What the router answers is a parameter. Complete and Prefix
-- hold the proofs. Telegram/Transport models src/developer_assistant/hermes_telegram_transport.py
-- over the adapter, and Telegram/Pairing has its proofs. Scheduling models
-- src/developer_assistant/progress_scheduling.py over its table in state_store.py; Due holds the
-- proof.
--
-- Not modelled: the SQLite engine and its file, the HTTP, Telegram, Docker and LLM calls, the
-- advisory narrative, command line parsing, the health and smoke endpoints and the shell scripts.
pub mod Prelude
pub mod EscalationPolicy
pub mod Escalations
pub mod GithubWorkflow
pub mod ModelCatalog
pub mod PullRequests
pub mod Regex
pub mod RuntimeCheck
pub mod Scheduling
pub mod Telegram
pub mod Upstream
pub mod WorkQueue
