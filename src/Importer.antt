-- ===== src/Importer.antt =====
-- src/import: what the import of an audit package rejects.
pub mod Checked
pub mod Subjects
pub mod Members
pub mod Passes
pub mod References
pub mod Accepted
pub mod Linked
pub mod Exact
pub mod Resolved
pub mod Founded
pub mod Placed
pub mod Referenced
pub mod ActionLog
pub mod Examples
