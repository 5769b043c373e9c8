-- ===== src/General.antt =====
-- pkg/kt/command/general: the lock on a service, the switch of its selector, and the way back.
pub mod Lock
pub mod Resource
pub mod Teardown
pub mod Selector
pub mod Locking
pub mod LockWait
pub mod Race
pub mod LaneSession
pub mod Workspace
mod Tests
mod LockTests
