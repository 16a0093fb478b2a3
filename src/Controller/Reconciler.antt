-- ===== src/Controller/Reconciler.antt =====
-- ApplicationReconciler of internal/controller/application_controller.go: its fields, its event
-- names, and the reconciliation of each kind of owned object.
pub mod Zero
pub mod Seen
pub mod Fitting
pub mod Bindings
pub mod Owned
use application_controller.Common.{
  String, Bool, true, false, ◌&&◌, Option, none, some, is_some, List, [], ◌∷◌, GoMap, lookup,
  insert, ◌==◌, string_eq,
}
use application_controller.Kube.{NamespacedName}
use application_controller.Controller.State.{Call, Client, Library, ImageFinder}
use application_controller.Controller.Mutators.IngressRoutes.{IngressRouteMutator}
use application_controller.Controller.Resource.{EventMap}

abbrev pub SeenSet : Type 0
SeenSet = GoMap NamespacedName Bool

-- The same entries, each as often, in any order.
pub data Reordered : SeenSet → SeenSet → Type 0 where
  empty : Reordered [] []
  keep :
      (e : NamespacedName × Bool) (xs ys : SeenSet) → Reordered xs ys → Reordered (e ∷ xs) (e ∷ ys)
  swap : (a b : NamespacedName × Bool) (xs : SeenSet) → Reordered (a ∷ b ∷ xs) (b ∷ a ∷ xs)
  chain : (xs ys zs : SeenSet) → Reordered xs ys → Reordered ys zs → Reordered xs zs

-- `range_order` is the order in which a range meets the entries of a set of names: it meets each
-- entry, and each once.
pub record Reconciler (F : Type 0) : Type 0 where
  pub image_finder : ImageFinder F
  pub ingress_routes : IngressRouteMutator
  pub client : Client
  pub library : Library
  pub range_order : List Call → SeenSet → SeenSet
  pub range_visits : (calls : List Call) (seen : SeenSet) → Reordered (range_order calls seen) seen
  pub supports_prometheus : Bool
  pub supports_traefik : Bool

abbrev pub cluster_role_binding_events : EventMap
cluster_role_binding_events = record {
  created = "ClusterRoleBindingCreated";
  updated = "ClusterRoleBindingUpdated";
  upsert_failed = "ClusterRoleBindingUpsertFailed";
  deleted = "ClusterRoleBindingDeleted";
  delete_failed = "ClusterRoleBindingDeleteFailed";
}

abbrev pub deployment_events : EventMap
deployment_events = record {
  created = "DeploymentCreated";
  updated = "DeploymentUpdated";
  upsert_failed = "DeploymentUpsertFailed";
  deleted = "";
  delete_failed = "";
}

abbrev pub ingress_route_events : EventMap
ingress_route_events = record {
  created = "IngressRouteCreated";
  updated = "IngressRouteUpdated";
  upsert_failed = "IngressRouteUpsertFailed";
  deleted = "IngressRouteDeleted";
  delete_failed = "IngressRouteDeleteFailed";
}

abbrev pub role_binding_events : EventMap
role_binding_events = record {
  created = "RoleBindingCreated";
  updated = "RoleBindingUpdated";
  upsert_failed = "RoleBindingUpsertFailed";
  deleted = "RoleBindingDeleted";
  delete_failed = "RoleBindingDeleteFailed";
}

abbrev pub service_account_events : EventMap
service_account_events = record {
  created = "ServiceAccountCreated";
  updated = "ServiceAccountUpdated";
  upsert_failed = "ServiceAccountUpsertFailed";
  deleted = "";
  delete_failed = "";
}

abbrev pub service_events : EventMap
service_events = record {
  created = "ServiceCreated";
  updated = "ServiceUpdated";
  upsert_failed = "ServiceUpsertFailed";
  deleted = "";
  delete_failed = "";
}

abbrev pub lb_service_events : EventMap
lb_service_events = record {
  created = "LoadBalancerServiceCreated";
  updated = "LoadBalancerServiceUpdated";
  upsert_failed = "LoadBalancerServiceUpsertFailed";
  deleted = "LoadBalancerServiceDeleted";
  delete_failed = "LoadBalancerServiceDeleteFailed";
}

abbrev pub pod_monitor_events : EventMap
pod_monitor_events = record {
  created = "PodMonitorCreated";
  updated = "PodMonitorUpdated";
  upsert_failed = "PodMonitorUpsertFailed";
  deleted = "PodMonitorDeleted";
  delete_failed = "PodMonitorDeleteFailed";
}

abbrev pub cron_job_events : EventMap
cron_job_events = record {
  created = "CronJobCreated";
  updated = "CronJobUpdated";
  upsert_failed = "CronJobUpsertFailed";
  deleted = "CronJobDeleted";
  delete_failed = "CronJobDeleteFailed";
}
