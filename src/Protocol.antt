-- ===== src/Protocol.antt =====
-- tools/lib/maintenance-protocol-model.mjs: the session in which a maintenance operation is proposed,
-- reviewed, confirmed, admitted, fed with its payload, published and cleaned up.
pub mod Types
pub mod Encode
pub mod Store
pub mod Session
pub mod Local
pub mod Wire
pub mod Run
pub mod Valid
pub mod Invariant
pub mod Examples
