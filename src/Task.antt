-- ===== src/Task.antt =====
-- A task, pkg/cache/task.go and pkg/cache/task_state.go.
mod Types
mod Defs
mod State
pub mod Moves
pub mod Release
pub mod Handle
pub mod Binding
pub mod Tests
unfoldable pub use Types.*
unfoldable pub use Defs.*
pub use State.*
