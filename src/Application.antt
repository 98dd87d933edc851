-- ===== src/Application.antt =====
-- An application, pkg/cache/application.go: its tasks and its gang reservation.
mod Defs
pub mod State
pub mod Progress
pub mod Schedule
pub mod Sorted
pub mod Scheduled
pub mod Tasks
pub mod Counts
pub mod Reservation
pub mod Sample
mod Tests
unfoldable pub use Defs.*
