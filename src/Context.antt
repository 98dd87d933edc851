-- ===== src/Context.antt =====
-- The context of the shim, pkg/cache/context.go: what the informers, the core and the dispatcher
-- call.
pub mod Metadata
pub mod Identity
pub mod Defs
pub mod Pods
pub mod Nodes
pub mod Tasks
mod TaskPod
pub mod Reach
pub mod Run
pub mod Initialize
pub mod Volumes
pub mod Handlers
pub mod Deliver
pub mod FitNode
mod Tests
mod FitTests
