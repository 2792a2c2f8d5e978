-- ===== src/Settings.antt =====
-- juju/state/utils.py: `dict_merge`, and the buffered settings of `YAMLState`.
pub mod Buffer
pub mod Merge
pub mod Union
pub mod Node
mod Tests
