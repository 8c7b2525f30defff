-- ===== src/Examples.antt =====
-- A concrete run: the toy digest, the records of a small case, tests of the operations on them and
-- the theorems at these inputs.
pub mod Data
mod Authority
mod Chain
mod Records
mod Store
mod Runs
mod Artifacts
mod Delegations
mod Reconciliation
mod Worker
