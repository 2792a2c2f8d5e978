-- ===== src/Executor.antt =====
-- juju/hooks/executor.py: the executor that serializes a unit's hooks.
pub mod Steps
pub mod Exclusion
pub mod Firing
mod Tests
