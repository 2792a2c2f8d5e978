-- ===== src/Workflow.antt =====
-- juju/lib/statemachine.py, and the workflows of juju/unit/workflow.py that run on it.
pub mod Defs
pub mod Machine
pub mod Paths
pub mod Total
pub mod Unit
pub mod Check
pub mod Interrupted
pub mod Contracts
pub mod Table
pub mod UnitLaws
mod Tests
pub mod Safe
