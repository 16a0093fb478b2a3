-- ===== src/Controller.antt =====
-- internal/controller: names, the mutators of the owned objects, and the reconciler.
pub mod Names
pub mod Ports
pub mod State
pub mod Mutators
pub mod Ownership
pub mod Resource
pub mod Reconciler
pub mod Reconcile
pub mod Setup
pub mod Cluster
