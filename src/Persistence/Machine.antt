-- ===== src/Persistence/Machine.antt =====
-- tools/lib/maintenance-persistence-model.mjs: `simulateMaintenancePersistence`, the writer of the
-- journal, event by event. The projection's constant keys and its two digests are left out.
pub mod Types
pub mod Journal
pub mod Replies
pub mod Checkpoint
pub mod Run
pub mod Seal
pub mod Sync
pub mod Durable
pub mod Kept
pub mod Faithful
