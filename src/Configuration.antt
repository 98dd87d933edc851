-- ===== src/Configuration.antt =====
-- The configuration of the scheduler, pkg/conf/schedulerconf.go, and its reload by the handlers of
-- config maps in pkg/cache/context.go.
pub mod Defs
pub mod Maps
pub mod Settings
pub mod Parse
pub mod Read
pub mod Update
pub mod Handlers
pub mod Reload
pub mod Runs
pub mod Bootstrap
pub mod Tests
