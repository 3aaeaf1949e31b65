-- ===== src/Cluster.antt =====
-- The parts of cluster/ that keep state of their own.
pub mod NodeTtl
pub mod Nodes
pub mod Origin
mod Tests
