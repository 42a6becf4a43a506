-- ===== src/ModelCatalog.antt =====
-- src/developer_assistant/model_catalog.py: the table of the models, the check of a configuration
-- against it, the probes and the rates. The answers of the router are a parameter.
pub mod Table
pub mod Verify
pub mod Probe
pub mod Complete
pub mod Prefix
mod Samples
