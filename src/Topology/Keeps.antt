-- ===== src/Topology/Keeps.antt =====
-- Every operation keeps a topology well formed.
pub mod Sequenced
pub mod Hosted
pub mod Related
pub mod Operations
pub mod Numbers
pub mod Units
pub mod Relations
