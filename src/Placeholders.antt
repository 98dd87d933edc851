-- ===== src/Placeholders.antt =====
-- Placeholders of a gang, pkg/cache/placeholder_manager.go.
pub mod Defs
pub mod Create
pub mod CleanUp
mod Tests
