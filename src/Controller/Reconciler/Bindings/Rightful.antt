-- ===== src/Controller/Reconciler/Bindings/Rightful.antt =====
-- The reconciliation of bindings and CronJobs makes only rightful calls.
use application_controller.Common.{refl, not, Option, none, some, List, [], ◌∷◌, ◌==◌, string_eq}
use application_controller.Kube.{Kind, Object, Spec}
use application_controller.Api.{
  ImageSpec, Application, ScopedRoleRef, scope_or_default, role_binding_scope_namespace,
  role_binding_scope_cluster, CronJobSpec,
}
use application_controller.Gkutil.{from_role_ref, is_cluster_role}
use application_controller.Controller.State.{Call, list, pure}
use application_controller.Controller.State.Keeps.{
  Keeps, Keeps-pure, Keeps-lift, Keeps-call, Keeps-if, Keeps-bind,
}
use application_controller.Controller.Mutators.CronJobs.Calls.{cron_job_mutate-Gives}
use application_controller.Controller.Resource.{EventMap}
use application_controller.Controller.Resource.Rightful.{
  IsSound, ensure_resource-Keeps, ensure_no_resource-Keeps,
}
use application_controller.Controller.Reconciler.{SeenSet, Reconciler}
use application_controller.Controller.Reconciler.Fitting.{IsFitting, plain-Gives}
use application_controller.Images.ImageRef.{ImageRef}
use application_controller.Controller.Reconciler.Bindings.{
  listed_names, listed_cluster_names, range_now, clean_up, bind_roles, reconcile_role_bindings,
  bind_cluster_roles, clean_up_cluster, get_owned_cluster_role_bindings,
  reconcile_cluster_role_bindings, remove_bindings, ensure_no_cluster_role_bindings, schedule_jobs,
  reconcile_cron_jobs,
}

module _ {F : Type 0} (H : F → Type 0) (Fits : (k : Kind) → Spec k → Type 0)
    (Answers : ImageSpec → ImageRef → Type 0) (r : Reconciler F) (app : Application)
    (fit : IsFitting H Fits Answers r app) where
  open r use {client, library}

  abbrev Q : Call → Type 0
  Q = IsSound library app Fits

  range_now-Keeps : (seen : SeenSet) → Keeps H Q (range_now r seen)
  unfolding range_now pure
  range_now-Keeps seen = record { at = λ s h. h }

  clean_up-Keeps :
      (k : Kind) (events : EventMap) (seen : SeenSet) → Keeps H Q (clean_up r app k events seen)
  unfolding clean_up
  clean_up-Keeps k events [] = Keeps-pure tt
  clean_up-Keeps k events ((name, seen) ∷ names) =
      Keeps-if (not seen) _ _
        (λ _.
          Keeps-bind _ _ (ensure_no_resource-Keeps H Fits library client app name k _ events)
            λ _. clean_up-Keeps k events names)
        (λ _. clean_up-Keeps k events names)

  bind_roles-Keeps :
      (roles : List ScopedRoleRef) (seen : SeenSet) → Keeps H Q (bind_roles r app roles seen)
  unfolding bind_roles
  bind_roles-Keeps [] seen = Keeps-pure seen
  bind_roles-Keeps (role_ref ∷ roles) seen =
      Keeps-if (not (scope_or_default role_ref == role_binding_scope_namespace)) _ _
        (λ _. bind_roles-Keeps roles seen)
        λ _.
          Keeps-bind _ _
            (ensure_resource-Keeps H Fits library client app _ _ _ _ _
              (plain-Gives H Fits Answers r app fit _ _ refl λ o. Keeps-lift _))
            λ _. bind_roles-Keeps roles _

  pub reconcile_role_bindings-Keeps : Keeps H Q (reconcile_role_bindings r app)
  unfolding reconcile_role_bindings
  reconcile_role_bindings-Keeps = Keeps-bind _ _ (Keeps-call (list _ _ _) _ tt) λ rbs.
      Keeps-bind _ _ (bind_roles-Keeps app.spec.roles (listed_names [] rbs))
        λ seen. Keeps-bind _ _ (range_now-Keeps seen) λ names. clean_up-Keeps _ _ names

  bind_cluster_roles-Keeps :
      (roles : List ScopedRoleRef) (seen : SeenSet)
      → Keeps H Q (bind_cluster_roles r app roles seen)
  unfolding bind_cluster_roles
  bind_cluster_roles-Keeps [] seen = Keeps-pure _
  bind_cluster_roles-Keeps (role_ref ∷ roles) seen =
      Keeps-if (not (scope_or_default role_ref == role_binding_scope_cluster)) _ _
        (λ _. bind_cluster_roles-Keeps roles seen)
        λ _.
          Keeps-if (not (is_cluster_role (from_role_ref role_ref.role_ref))) _ _
            (λ _. Keeps-pure none)
            λ _.
              Keeps-bind _ _
                (ensure_resource-Keeps H Fits library client app _ _ _ _ _
                  (plain-Gives H Fits Answers r app fit _ _ refl λ o. Keeps-lift _))
                λ _. bind_cluster_roles-Keeps roles _

  clean_up_cluster-Keeps : (seen : Option SeenSet) → Keeps H Q (clean_up_cluster r app seen)
  unfolding clean_up_cluster
  clean_up_cluster-Keeps none = Keeps-pure tt
  clean_up_cluster-Keeps (some seen) =
      Keeps-bind _ _ (range_now-Keeps seen) λ names. clean_up-Keeps _ _ names

  get_owned_cluster_role_bindings-Keeps : Keeps H Q (get_owned_cluster_role_bindings r app)
  unfolding get_owned_cluster_role_bindings
  get_owned_cluster_role_bindings-Keeps = Keeps-call (list _ _ _) _ tt

  pub reconcile_cluster_role_bindings-Keeps : Keeps H Q (reconcile_cluster_role_bindings r app)
  unfolding reconcile_cluster_role_bindings
  reconcile_cluster_role_bindings-Keeps =
      Keeps-bind _ _ get_owned_cluster_role_bindings-Keeps λ crbs.
        Keeps-bind _ _ (bind_cluster_roles-Keeps app.spec.roles (listed_cluster_names [] crbs))
          clean_up_cluster-Keeps

  remove_bindings-Keeps :
      (crbs : List (Object Kind.cluster_role_binding)) → Keeps H Q (remove_bindings r app crbs)
  unfolding remove_bindings
  remove_bindings-Keeps [] = Keeps-pure tt
  remove_bindings-Keeps (crb ∷ crbs) =
      Keeps-bind _ _ (ensure_no_resource-Keeps H Fits library client app _ _ crb _)
        λ _. remove_bindings-Keeps crbs

  pub ensure_no_cluster_role_bindings-Keeps : Keeps H Q (ensure_no_cluster_role_bindings r app)
  unfolding ensure_no_cluster_role_bindings
  ensure_no_cluster_role_bindings-Keeps =
      Keeps-bind _ _ get_owned_cluster_role_bindings-Keeps remove_bindings-Keeps

  schedule_jobs-Keeps :
      (jobs : List CronJobSpec) (seen : SeenSet) → Keeps H Q (schedule_jobs r app jobs seen)
  unfolding schedule_jobs
  schedule_jobs-Keeps [] seen = Keeps-pure seen
  schedule_jobs-Keeps (job ∷ jobs) seen =
      Keeps-bind _ _
        (ensure_resource-Keeps H Fits library client app _ _ _ _ _ (λ o.
          cron_job_mutate-Gives H Q Answers r.image_finder app job _ o fit.honest
            λ ref a. fit.cron_job job ref a o))
        λ _. schedule_jobs-Keeps jobs _

  pub reconcile_cron_jobs-Keeps : Keeps H Q (reconcile_cron_jobs r app)
  unfolding reconcile_cron_jobs
  reconcile_cron_jobs-Keeps = Keeps-bind _ _ (Keeps-call (list _ _ _) _ tt) λ cjs.
      Keeps-bind _ _ (schedule_jobs-Keeps app.spec.cron_jobs (listed_names [] cjs))
        λ seen. Keeps-bind _ _ (range_now-Keeps seen) λ names. clean_up-Keeps _ _ names
