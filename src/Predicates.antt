-- ===== src/Predicates.antt =====
-- The predicate manager of pkg/plugin/predicates/predicate_manager.go.
pub mod Framework
pub mod Defs
pub mod Fits
pub mod Preempt
pub mod Tests
