-- ===== src/Effects.antt =====
-- src/provable_agent_reference/synthetic_effects.py: the lifecycle of an authorization and the
-- simulated execution of its effect.
pub mod Lifecycle
pub mod Consumption
pub mod Execution
pub mod Reconciliation
