-- ===== src/Data.antt =====
-- JSON documents and their canonical text (tools/lib/jcs.mjs, tools/lib/order.mjs).
pub mod Decimal
pub mod Json
pub mod Order
pub mod Jcs
