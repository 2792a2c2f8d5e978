-- ===== src/Scheduler.antt =====
-- juju/hooks/scheduler.py: the queue and the scheduler of relation hooks.
pub mod Queue
pub mod Presence
mod Tests
pub mod Reduce
pub mod State
pub mod Watch
pub mod Members
pub mod Recovery
pub mod Merge
pub mod Idle
pub mod Busy
pub mod Stopped
pub mod Returns
