-- ===== src/ControlPlane.antt =====
-- src/provable_agent_reference/control_plane: the capability grants that bound delegated agents, and
-- the durable store, each table as a list of rows.
pub mod Models
pub mod Attenuation
pub mod Table
pub mod Outbox
pub mod Database
pub mod Activities
pub mod Runs
pub mod Service
pub mod EffectRecords
pub mod Artifacts
pub mod Delegations
pub mod ArtifactTable
pub mod Reconciler
pub mod Worker
