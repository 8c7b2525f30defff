-- ===== src/Workflow.antt =====
-- src/provable_agent_reference/synthetic_workflow.py: the tool gateway with its budgets, and the
-- hash-chained activity records.
pub mod Grant
pub mod Memory
pub mod Gateway
pub mod Activity
