-- ===== src/Callback.antt =====
-- The callback of the core, pkg/cache/scheduler_callback.go.
pub mod Responses
pub mod Defs
pub mod Valid
pub mod Allocated
mod Tests
