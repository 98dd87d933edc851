-- ===== src/Admission.antt =====
-- The admission controller, pkg/admission.
pub mod Caches
pub mod Requests
pub mod Defs
pub mod Labels
pub mod Patched
pub mod Pods
pub mod Updates
pub mod Mutate
pub mod Identity
mod Tests
