-- ===== src/SchedulerCache.antt =====
-- The scheduler cache, pkg/cache/external/scheduler_cache.go.
--
-- `Defs` holds the state and the operations. An operation takes the cache and returns the new
-- one; `none` is the panic of a nil pointer that Go would raise.
mod NodeInfo
mod Defs
mod Nodes
pub mod Invariant
mod Frame
mod Update
pub mod Place
pub mod Settle
pub mod Remove
mod Release
pub mod RemoveNode
pub mod UpdateNode
pub mod NewNode
pub mod AddNode
pub mod Adopted
pub mod Preserve
pub mod Reach
pub mod Plain
mod Tests
pub mod Assume
pub mod ClaimCounts
pub use NodeInfo.*
unfoldable pub use Defs.*
pub use Nodes.*
