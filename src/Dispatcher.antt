-- ===== src/Dispatcher.antt =====
-- The central dispatcher, pkg/dispatcher/dispatcher.go.
pub mod Handlers
pub mod Defs
pub mod Steps
pub mod Safety
pub mod Delivery
mod Tests
