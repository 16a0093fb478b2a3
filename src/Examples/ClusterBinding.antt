-- ===== src/Examples/ClusterBinding.antt =====
-- An example of the theorem on the bindings of ClusterRoles.
use application_controller.Common.{some, List, [], ◌∷◌, ◌≡◌, refl, lookup, concat, insert}
use application_controller.Errors.{ok}
use application_controller.Kube.{RoleRef, Kind, Object}
use application_controller.Gkutil.{is_application, is_cluster_role, from_role_ref}
use application_controller.Api.{Application}
use application_controller.Controller.Names.{cluster_role_binding_name}
use application_controller.Controller.Ownership.{is_object_owned_by}
use application_controller.Controller.Mutators.Bindings.{cluster_role_binding_mutate}
use application_controller.Controller.State.{list, pure, fail, lift, call, eventf, attempt, ◌>>=◌}
use application_controller.Controller.State.Steps.{then_call}
use application_controller.Controller.Resource.{
  fetch, set_owner, create_or_patch, reconcile_resource, ensure_resource, ensure_no_resource,
}
use application_controller.Controller.Reconciler.{Reconciler}
use application_controller.Controller.Reconciler.Bindings.{
  reconcile_cluster_role_bindings, get_owned_cluster_role_bindings,
}
use application_controller.Controller.Reconciler.Bindings.Removal.{owner_text}
use application_controller.Controller.Reconciler.Bindings.ClusterRoles.{
  Succeeds, reconcile_cluster_role_bindings-Succeeds,
}
use application_controller.Examples.Cluster.{
  web, web_spec, web_crb, cluster_with, reconciler_with, fresh,
}

abbrev admin_role : RoleRef
admin_role = record {
  api_group = "rbac.authorization.k8s.io";
  kind = "ClusterRole";
  name = "admin";
}

abbrev admin_web : Application
admin_web = record web {
  spec = record web_spec { roles = record { role_ref = admin_role; scope = some "Cluster" } ∷ [] };
}

abbrev live : Reconciler (Unit {0})
live = reconciler_with (cluster_with admin_web)

binds_admin : (reconcile_cluster_role_bindings live admin_web fresh).0 ≡ ok tt
unfolding reconcile_cluster_role_bindings get_owned_cluster_role_bindings is_cluster_role
    from_role_ref ensure_resource reconcile_resource fetch create_or_patch
    cluster_role_binding_mutate ensure_no_resource is_object_owned_by set_owner
    cluster_role_binding_name pure fail lift call eventf attempt ◌>>=◌ lookup concat insert
    is_application
binds_admin = refl

reconcile_cluster_role_bindings-Succeeds_example :
    (crbs : List (Object Kind.cluster_role_binding)) × (ok (web_crb ∷ []) ≡ ok crbs)
    × Succeeds live admin_web crbs
        (then_call (list Kind.cluster_role_binding "" (owner_text live admin_web)) fresh)
        (reconcile_cluster_role_bindings live admin_web fresh).1
reconcile_cluster_role_bindings-Succeeds_example =
    reconcile_cluster_role_bindings-Succeeds live admin_web fresh binds_admin
