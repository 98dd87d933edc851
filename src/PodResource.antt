-- ===== src/PodResource.antt =====
-- The resources of a pod, GetPodResource of pkg/common/resource.go.
pub mod Defs
pub mod Needs
pub mod Sums
pub mod Loops
pub mod Total
mod Tests
