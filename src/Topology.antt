-- ===== src/Topology.antt =====
-- juju/state/topology.py: the topology map that all agents share.
pub mod State
pub mod Machine
pub mod Service
pub mod Relation
pub mod Member
pub mod Invariant
pub mod Keeps
pub mod History
mod Samples
mod Tests
mod RelationTests
pub mod Numbering
pub mod Version
pub mod Queries
pub mod Endpoint
pub mod Endpoints
pub mod Memberships
pub mod Machines
