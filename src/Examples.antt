-- ===== src/Examples.antt =====
-- Test data and examples: an Application in a small cluster, and instances of the theorems.
pub mod Cluster
pub mod ClusterBinding
pub mod Reconciliation
pub mod Objects
pub mod Mutating
pub mod Watching
pub mod Finding
pub mod Discovering
pub mod Colliding
pub mod Settling
pub mod Repeating
pub mod Operating
pub mod Starting
