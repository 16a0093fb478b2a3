-- ===== src/Examples/Reconciliation.antt =====
-- Examples of the theorems on Reconcile and its stages.
use application_controller.Common.{
  map, false, Option, some, List, [], ◌∷◌, ◌≡◌, refl, lookup, concat, insert, All,
}
use application_controller.Errors.{ok, err}
use application_controller.Kube.{Kind, Object}
use application_controller.Api.{Application, CronJobSpec}
use application_controller.Controller.State.{
  Client, list, update, update_status, State, pure, fail, lift, call, eventf, attempt, find_image,
  ◌>>=◌,
}
use application_controller.Controller.State.Steps.{then_call}
use application_controller.Controller.Resource.Rightful.{IsRightful}
use application_controller.Controller.Reconcile.{
  done, finish, set_conditions, do_update_status, update_status_with_error, then_or_report,
  finalize, reconcile_owned, reconcile_application, reconcile,
}
use application_controller.Controller.Reconcile.Rightful.{reconcile-IsRightful}
use application_controller.Controller.Names.{cron_job_name, role_binding_name, lb_service_name}
use application_controller.Images.ImageRef.{to_string}
use application_controller.Gkutil.{is_application, is_cluster_role, from_role_ref}
use application_controller.Controller.Ownership.{is_object_owned_by}
use application_controller.Controller.Mutators.Services.{service_mutate}
use application_controller.Controller.Mutators.Bindings.{role_binding_mutate}
use application_controller.Controller.Mutators.Deployments.{deployment_mutate, mutate_deployment}
use application_controller.Controller.Resource.{
  fetch, set_owner, create_or_patch, reconcile_resource, ensure_resource, ensure_no_resource,
}
use application_controller.Controller.Reconciler.{Reconciler}
use application_controller.Controller.Reconciler.Bindings.{
  reconcile_role_bindings, reconcile_cluster_role_bindings, reconcile_cron_jobs,
  ensure_no_cluster_role_bindings, get_owned_cluster_role_bindings,
}
use application_controller.Controller.Reconciler.Bindings.Removal.{AllRemoved, owner_text}
use application_controller.Controller.Reconciler.Bindings.CleanUp.{Sweeps, name_of}
use application_controller.Controller.Reconciler.Bindings.Jobs.{
  Scheduled, job_names, reconcile_cron_jobs-Sweeps,
}
use application_controller.Controller.Mutators.CronJobs.{cron_job_mutate}
use application_controller.Controller.Reconciler.Bindings.Roles.{
  Bound, bound_names, reconcile_role_bindings-Sweeps, reconcile_cluster_role_bindings_abandons,
}
use application_controller.Controller.Reconciler.Owned.{
  reconcile_service_account, reconcile_service, reconcile_lb_service, reconcile_pod_monitor,
  reconcile_ingress_route, reconcile_deployment,
}
use application_controller.Controller.Reconcile.Finalizers.{
  IsLeaving, cleaning, reconcile-AllRemoved, reconcile-clean_up_failed,
}
use application_controller.Controller.Reconcile.Phases.{status_answer, joined_error}
use application_controller.Controller.Reconcile.Stages.{
  InOrder, stages, reported, update_status_with_error_lem, reconcile_owned-InOrder,
}
use application_controller.Examples.Cluster.{
  starting, view_role, web_spec, web, leaving_web, wide_web, stale_rb, web_crb, not_found,
  cluster_with, reconciler_with, web_name, fresh, test_library,
}

reconcile-IsRightful_example :
    All
      (IsRightful test_library web)
      (reconcile (reconciler_with (cluster_with web)) web_name fresh).1.history
reconcile-IsRightful_example =
    reconcile-IsRightful (reconciler_with (cluster_with web)) web_name web fresh refl tt

web_is_leaving : IsLeaving (reconciler_with (cluster_with leaving_web)) leaving_web
web_is_leaving = record {
  condition = starting;
  conditions = [];
  has_status = refl;
  is_deleted = refl;
}

leaves : (reconcile (reconciler_with (cluster_with leaving_web)) web_name fresh).0 ≡ ok done
unfolding reconcile reconcile_application finalize ensure_no_cluster_role_bindings
    get_owned_cluster_role_bindings ensure_no_resource reconcile_resource fetch is_object_owned_by
    pure fail lift call eventf attempt ◌>>=◌ is_application lookup concat
leaves = refl

reconcile-AllRemoved_example :
    let r = reconciler_with (cluster_with leaving_web) in
    (crbs : List (Object Kind.cluster_role_binding)) × (t : State (Unit {0})) × (ok (web_crb ∷ [])
      ≡ ok crbs)
    × AllRemoved r leaving_web crbs
        (then_call
          (list Kind.cluster_role_binding "" (owner_text r leaving_web))
          (cleaning r leaving_web web_name fresh))
        t
    × ((reconcile r web_name fresh).1
        ≡ then_call
            (update (test_library.remove_finalizer leaving_web "application.yarotsky.me/finalizer"))
            t)
reconcile-AllRemoved_example =
    reconcile-AllRemoved (reconciler_with (cluster_with leaving_web)) leaving_web web_name fresh
      done refl web_is_leaving refl leaves

-- The API server refuses the listing of bindings.
abbrev closed_cluster : Client
closed_cluster =
    let c = cluster_with leaving_web in record c { list = λ h k ns owner. err not_found }

refused_clean_up :
    ensure_no_cluster_role_bindings
      (reconciler_with closed_cluster)
      leaving_web
      (cleaning (reconciler_with closed_cluster) leaving_web web_name fresh)
    ≡ (
      err not_found,
      then_call
          (list Kind.cluster_role_binding ""
            (owner_text (reconciler_with closed_cluster) leaving_web))
          (cleaning (reconciler_with closed_cluster) leaving_web web_name fresh),
    )
unfolding ensure_no_cluster_role_bindings get_owned_cluster_role_bindings call ◌>>=◌
refused_clean_up = refl

reconcile-clean_up_failed_example : reconcile (reconciler_with closed_cluster) web_name fresh ≡ (
  err not_found,
  then_call
      (list Kind.cluster_role_binding "" (owner_text (reconciler_with closed_cluster) leaving_web))
      (cleaning (reconciler_with closed_cluster) leaving_web web_name fresh),
)
reconcile-clean_up_failed_example =
    reconcile-clean_up_failed (reconciler_with closed_cluster) leaving_web web_name fresh _
      not_found refl
      (record { condition = starting; conditions = []; has_status = refl; is_deleted = refl }) refl
      refused_clean_up

abbrev live : Reconciler (Unit {0})
live = reconciler_with (cluster_with web)

reconciles : (reconcile_owned live web fresh).0 ≡ ok done
unfolding then_or_report do_update_status update_status_with_error set_conditions reconcile_owned
    reconcile_service_account reconcile_role_bindings reconcile_cluster_role_bindings
    reconcile_service reconcile_lb_service reconcile_pod_monitor reconcile_ingress_route
    reconcile_cron_jobs reconcile_deployment ensure_resource reconcile_resource fetch
    create_or_patch service_mutate role_binding_mutate deployment_mutate find_image
    ensure_no_resource is_object_owned_by set_owner role_binding_name lb_service_name pure fail lift
    call eventf attempt ◌>>=◌ lookup concat insert is_application mutate_deployment to_string
reconciles = refl

reconcile_owned-InOrder_example :
    (t : State (Unit {0})) × (deployed : Option (Object Kind.deployment × Application)) × InOrder
      live web
      (stages live web)
      fresh
      t
    × ((reconcile_deployment live web t).0 ≡ ok deployed)
    × (reconcile_owned live web fresh ≡ finish live deployed (reconcile_deployment live web t).1)
reconcile_owned-InOrder_example = reconcile_owned-InOrder live web fresh done reconciles

update_status_with_error_lem_example :
    update_status_with_error live web not_found "ServiceUpsertFailed" fresh ≡ (
      err (
          joined_error live not_found
            (status_answer live (ok (reported live web not_found "ServiceUpsertFailed")))),
      then_call (update_status (reported live web not_found "ServiceUpsertFailed")) fresh,
    )
update_status_with_error_lem_example =
    update_status_with_error_lem live web not_found "ServiceUpsertFailed" fresh

binds_roles : (reconcile_role_bindings live web fresh).0 ≡ ok tt
unfolding reconcile_role_bindings ensure_resource reconcile_resource fetch create_or_patch
    role_binding_mutate ensure_no_resource is_object_owned_by set_owner role_binding_name pure fail
    lift call eventf attempt ◌>>=◌ lookup concat insert
binds_roles = refl

reconcile_role_bindings-Sweeps_example :
    (rbs : List (Object Kind.role_binding)) × (t : State (Unit {0})) × (ok (stale_rb ∷ []) ≡ ok rbs)
    × Bound live web web_spec.roles (then_call (list Kind.role_binding "prod" "web") fresh) t
    × Sweeps live web Kind.role_binding
        (map name_of rbs)
        (bound_names live web web_spec.roles)
        t
        (reconcile_role_bindings live web fresh).1
reconcile_role_bindings-Sweeps_example = reconcile_role_bindings-Sweeps live web fresh binds_roles

no_cluster_role : is_cluster_role (from_role_ref view_role) ≡ false
unfolding is_cluster_role from_role_ref
no_cluster_role = refl

reconcile_cluster_role_bindings_abandons_example :
    reconcile_cluster_role_bindings live wide_web fresh
    ≡ (ok tt, then_call (list Kind.cluster_role_binding "" (owner_text live wide_web)) fresh)
reconcile_cluster_role_bindings_abandons_example =
    reconcile_cluster_role_bindings_abandons live wide_web
      (record { role_ref = view_role; scope = some "Cluster" }) [] (web_crb ∷ []) fresh refl refl
      no_cluster_role refl

abbrev backup : CronJobSpec
backup = record { name = "backup"; schedule = "0 3 * * *"; command = []; args = []; resources = "" }

abbrev backed_up_web : Application
backed_up_web = record web { spec = record web_spec { cron_jobs = backup ∷ [] } }

schedules_backup : (reconcile_cron_jobs live backed_up_web fresh).0 ≡ ok tt
unfolding reconcile_cron_jobs ensure_resource reconcile_resource fetch create_or_patch
    cron_job_mutate find_image ensure_no_resource is_object_owned_by set_owner cron_job_name pure
    fail lift call eventf attempt ◌>>=◌ lookup concat insert to_string
schedules_backup = refl

reconcile_cron_jobs-Sweeps_example :
    (cjs : List (Object Kind.cron_job)) × (t : State (Unit {0})) × (ok [] ≡ ok cjs)
    × Scheduled live backed_up_web
        (backup ∷ [])
        (then_call (list Kind.cron_job "prod" "web") fresh)
        t
    × Sweeps live backed_up_web Kind.cron_job
        (map name_of cjs)
        (job_names live backed_up_web (backup ∷ []))
        t
        (reconcile_cron_jobs live backed_up_web fresh).1
reconcile_cron_jobs-Sweeps_example =
    reconcile_cron_jobs-Sweeps live backed_up_web fresh schedules_backup
