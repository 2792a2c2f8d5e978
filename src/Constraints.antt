-- ===== src/Constraints.antt =====
-- juju/machine/constraints.py: the constraints of machines.
pub mod Defs
pub mod Conflicts
pub mod Symmetry
mod Tests
