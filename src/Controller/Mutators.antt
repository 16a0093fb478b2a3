-- ===== src/Controller/Mutators.antt =====
-- The mutators of internal/controller: each brings one kind of owned object to the state that an
-- Application asks for.
pub mod Pods
pub mod Deployments
pub mod CronJobs
pub mod Services
pub mod PodMonitors
pub mod Hostname
pub mod IngressRoutes
pub mod Bindings
pub mod Settled
