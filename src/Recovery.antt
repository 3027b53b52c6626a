-- ===== src/Recovery.antt =====
-- tools/lib/maintenance-recovery-model.mjs: the journal of maintenance and recovery admissions, its
-- reconstruction, and the offers that are made on it.
pub mod Types
pub mod Encode
pub mod Terms
pub mod State
pub mod Offer
pub mod Advance
pub mod Scenario
pub mod Machine
pub mod Run
pub mod Prepare
pub mod Examples
pub mod Invariant
