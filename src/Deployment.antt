-- ===== src/Deployment.antt =====
-- tools/lib/deployment-model.mjs: the synthetic model of one maintenance operation (install, update,
-- enroll a backend, repair, uninstall) and of the events that follow its admission.
pub mod Types
pub mod Admission
pub mod Run
pub mod Scope
pub mod Admissible
pub mod Floor
pub mod Outcome
pub mod Path
mod Examples
