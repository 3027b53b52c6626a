-- ===== src/Persistence.antt =====
-- tools/lib/maintenance-persistence-model.mjs: an append-only journal with a published head and
-- checkpoints, its replay, and the machine that writes it event by event.
pub mod Types
pub mod Encode
pub mod State
pub mod Advance
pub mod Replay
pub mod Machine
mod Examples
