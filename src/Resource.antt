-- ===== src/Resource.antt =====
-- Arithmetic on `si.Resource`, in pkg/common/resource.go.
mod Defs
pub mod Sum
pub mod Equality
mod Tests
pub use Defs.*
