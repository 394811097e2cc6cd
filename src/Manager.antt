-- ===== src/Manager.antt =====
-- src/server-components/manager.c: the manager process. Its connection listener hands a client to one
-- of several actual managers, each a thread that serves its clients by a delta queue.
pub mod Request
mod Tests
pub mod Serve
pub mod Fresh
pub mod Delivery
pub mod Startup
pub mod Sleep
pub mod Routine
pub mod Invariant
pub mod Reachable
pub mod Listener
pub mod Assignment
