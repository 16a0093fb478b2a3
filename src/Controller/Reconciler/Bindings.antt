-- ===== src/Controller/Reconciler/Bindings.antt =====
-- reconcileRoleBindings, reconcileClusterRoleBindings, reconcileCronJobs and
-- ensureNoClusterRoleBindings: objects of which an Application may own several.
pub mod Rightful
pub mod Removal
pub mod CleanUp
pub mod Roles
pub mod ClusterLoop
pub mod ClusterRoles
pub mod Jobs
use application_controller.Common.{
  String, Bool, true, false, not, ◌&&◌, Option, none, some, List, [], ◌∷◌, GoMap, lookup, insert,
  ◌==◌, string_eq, if◌then◌else◌,
}
use application_controller.Errors.{Result}
use application_controller.Kube.{NamespacedName, ObjectMeta, Kind, Object, name_eq}
use application_controller.Api.{
  Application, ScopedRoleRef, scope_or_default, role_binding_scope_namespace,
  role_binding_scope_cluster, CronJobSpec,
}
use application_controller.Gkutil.{from_role_ref, is_cluster_role}
use application_controller.Controller.Names.{
  application_name, role_binding_name, cluster_role_binding_name, cron_job_name,
}
use application_controller.Controller.State.{
  Call, list, Client, Library, M, pure, lift, call, ◌>>=◌, ◌>>◌,
}
use application_controller.Controller.Mutators.Bindings.{
  role_binding_mutate, cluster_role_binding_mutate,
}
use application_controller.Controller.Mutators.CronJobs.{cron_job_mutate}
use application_controller.Controller.Resource.{EventMap, ensure_resource, ensure_no_resource}
use application_controller.Controller.Reconciler.{
  SeenSet, Reconciler, role_binding_events, cluster_role_binding_events, cron_job_events,
}
use application_controller.Controller.Reconciler.Zero.{zero_object}

-- for _, rb := range rbs.Items { seenSet[…] = false }
unfoldable pub listed_names : {k : Kind} → SeenSet → List (Object k) → SeenSet
listed_names seen [] = seen
listed_names seen (o ∷ os) =
    listed_names (insert (record { namespace = o.meta.namespace; name = o.meta.name }) false seen)
      os

-- The cluster-scoped variant: the names have no namespace.
unfoldable pub listed_cluster_names : {k : Kind} → SeenSet → List (Object k) → SeenSet
listed_cluster_names seen [] = seen
listed_cluster_names seen (o ∷ os) =
    listed_cluster_names (insert (record { namespace = ""; name = o.meta.name }) false seen) os

-- The range order at this moment.
pub range_now : {F : Type 0} → Reconciler F → SeenSet → M F SeenSet
range_now r seen = call_free (λ h. r.range_order h seen)
  where
    call_free : {F : Type 0} → (List Call → SeenSet) → M F SeenSet
    call_free f s = pure (f s.history) s

module _ {F : Type 0} (r : Reconciler F) (app : Application) where
  open r use {client, library}

  -- for name, seen := range seenSet { if !seen { r.ensureNoResource(…) } }
  pub clean_up : (k : Kind) → EventMap → SeenSet → M F (Unit {0})
  clean_up k events [] = pure tt
  clean_up k events ((name, seen) ∷ names) =
      let rest = clean_up k events names in
      if not seen
      then (ensure_no_resource library client app name k (zero_object k) events >>= λ _. rest)
      else rest

  -- The loop of reconcileRoleBindings over app.Spec.Roles.
  bind_roles : List ScopedRoleRef → SeenSet → M F SeenSet
  bind_roles [] seen = pure seen
  bind_roles (role_ref ∷ roles) seen =
      let skip = bind_roles roles seen in
      let name = role_binding_name library.to_lower app role_ref.role_ref in
      let bind_rest = bind_roles roles (insert name true seen) in
      if not (scope_or_default role_ref == role_binding_scope_namespace)
      then skip
      else (ensure_resource library client app name Kind.role_binding
            (zero_object Kind.role_binding) (λ rb. lift (role_binding_mutate app role_ref rb))
            role_binding_events
          >>= λ _. bind_rest)

  unfoldable pub reconcile_role_bindings : M F (Unit {0})
  unfolding listed_names range_now clean_up bind_roles
  reconcile_role_bindings = do
    rbs ←
        call (list Kind.role_binding app.namespace app.name)
          (λ h. client.list h Kind.role_binding app.namespace app.name)
    seen ← bind_roles app.spec.roles (listed_names [] rbs)
    names ← range_now r seen
    clean_up Kind.role_binding role_binding_events names

  -- The loop of reconcileClusterRoleBindings; `none` is its early return. A role that is no
  -- ClusterRole makes the source return the error variable of the listing, which is nil there.
  pub bind_cluster_roles : List ScopedRoleRef → SeenSet → M F (Option SeenSet)
  bind_cluster_roles [] seen = pure (some seen)
  bind_cluster_roles (role_ref ∷ roles) seen =
      let skip = bind_cluster_roles roles seen in
      let name = cluster_role_binding_name library.to_lower app role_ref.role_ref in
      let bind_rest = bind_cluster_roles roles (insert name true seen) in
      if not (scope_or_default role_ref == role_binding_scope_cluster)
      then skip
      else if not (is_cluster_role (from_role_ref role_ref.role_ref))
      then pure none
      else (ensure_resource library client app name Kind.cluster_role_binding
            (zero_object Kind.cluster_role_binding)
            (λ crb. lift (cluster_role_binding_mutate app role_ref crb)) cluster_role_binding_events
          >>= λ _. bind_rest)

  clean_up_cluster : Option SeenSet → M F (Unit {0})
  unfolding range_now clean_up
  clean_up_cluster none = pure tt
  clean_up_cluster (some seen) = do
    names ← range_now r seen
    clean_up Kind.cluster_role_binding cluster_role_binding_events names

  -- getOwnedClusterRoleBindings
  unfoldable pub get_owned_cluster_role_bindings : M F (List (Object Kind.cluster_role_binding))
  get_owned_cluster_role_bindings =
      let owner = library.name_string (application_name app) in
      call (list Kind.cluster_role_binding "" owner)
        (λ h. client.list h Kind.cluster_role_binding "" owner)

  unfoldable pub reconcile_cluster_role_bindings : M F (Unit {0})
  unfolding get_owned_cluster_role_bindings listed_cluster_names bind_cluster_roles clean_up_cluster
  reconcile_cluster_role_bindings = do
    crbs ← get_owned_cluster_role_bindings
    seen ← bind_cluster_roles app.spec.roles (listed_cluster_names [] crbs)
    clean_up_cluster seen

  remove_bindings : List (Object Kind.cluster_role_binding) → M F (Unit {0})
  remove_bindings [] = pure tt
  remove_bindings (crb ∷ crbs) =
      let rest = remove_bindings crbs in
      ensure_no_resource library client app (record { namespace = ""; name = crb.meta.name })
        Kind.cluster_role_binding crb cluster_role_binding_events
      >>= λ _. rest

  unfoldable pub ensure_no_cluster_role_bindings : M F (Unit {0})
  unfolding get_owned_cluster_role_bindings remove_bindings
  ensure_no_cluster_role_bindings = do crbs ← get_owned_cluster_role_bindings; remove_bindings crbs

  -- The loop of reconcileCronJobs over app.Spec.CronJobs.
  schedule_jobs : List CronJobSpec → SeenSet → M F SeenSet
  schedule_jobs [] seen = pure seen
  schedule_jobs (job ∷ jobs) seen =
      let name = cron_job_name app job.name in
      let rest = schedule_jobs jobs (insert name true seen) in
      ensure_resource library client app name Kind.cron_job (zero_object Kind.cron_job)
        (cron_job_mutate r.image_finder app job) cron_job_events
      >>= λ _. rest

  unfoldable pub reconcile_cron_jobs : M F (Unit {0})
  unfolding listed_names range_now clean_up schedule_jobs
  reconcile_cron_jobs = do
    cjs ←
        call (list Kind.cron_job app.namespace app.name)
          (λ h. client.list h Kind.cron_job app.namespace app.name)
    seen ← schedule_jobs app.spec.cron_jobs (listed_names [] cjs)
    names ← range_now r seen
    clean_up Kind.cron_job cron_job_events names
