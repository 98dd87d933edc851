-- ===== src/Gang.antt =====
-- Gang scheduling: the task groups of an annotation, pkg/cache/utils.go, and the ask for their
-- placeholders.
pub mod Defs
pub mod Validate
pub mod Ask
pub mod Sample
mod Tests
