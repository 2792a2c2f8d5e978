-- ===== src/Agent.antt =====
-- juju/unit/lifecycle.py, juju/unit/workflow.py and juju/agents/unit.py: the agent of a service unit,
-- with the workflows, lifecycles, schedulers and the executor that it drives.
pub mod RelationLifecycle
pub mod RelationStates
pub mod RelationRuns
pub mod RelationContracts
pub mod RelationLaws
pub mod Relations
pub mod Memberships
pub mod UnitLifecycle
pub mod UnitStates
pub mod UnitRuns
pub mod StartRuns
pub mod UpgradeRuns
pub mod UnitContracts
pub mod UnitPreconditions
pub mod UnitStateLaws
pub mod Retries
pub mod Callbacks
pub mod Stuck
pub mod Departures
pub mod MembershipSteps
pub mod MembershipLaws
pub mod MembershipDicts
pub mod Reconciled
pub mod Restarted
mod Tests
mod UnitTests
