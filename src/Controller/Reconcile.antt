-- ===== src/Controller/Reconcile.antt =====
-- ApplicationReconciler.Reconcile, setConditions, updateStatus and updateStatusWithError of
-- internal/controller/application_controller.go, and internal/k8s/deployconditions.go
pub mod Rightful
pub mod Phases
pub mod Finalizers
pub mod Stages
use application_controller.Common.{
  String, Bool, true, false, not, Option, none, some, List, [], ◌∷◌, if◌then◌else◌,
}
use application_controller.Errors.{Error, message, join, Result, ok, err}
use application_controller.Kube.{NamespacedName, DeploymentCondition, Condition, Kind, Object}
use application_controller.Api.{Application, ApplicationStatus, condition_ready}
use application_controller.Controller.Names.{finalizer_name}
use application_controller.Controller.State.{
  State, Call, get_application, update, update_status, M, pure, fail, call, eventf, attempt, ◌>>=◌,
  ◌>>◌,
}
use application_controller.Controller.Resource.{EventMap, event_type_normal}
use application_controller.Controller.Reconciler.{
  Reconciler, service_account_events, role_binding_events, cluster_role_binding_events,
  service_events, lb_service_events, pod_monitor_events, ingress_route_events, cron_job_events,
  deployment_events,
}
use application_controller.Controller.Reconciler.Bindings.{
  reconcile_role_bindings, reconcile_cluster_role_bindings, reconcile_cron_jobs,
  ensure_no_cluster_role_bindings,
}
use application_controller.Controller.Reconciler.Owned.{
  reconcile_service_account, reconcile_service, reconcile_lb_service, reconcile_pod_monitor,
  reconcile_ingress_route, reconcile_deployment,
}

-- What a call of Reconcile comes to: `Result{Requeue: …}`, or the panic of reconcileDeployment.
pub data Outcome : Type 0 where
  done requeue panicked : Outcome

abbrev pub event_reason_cleanup : String
event_reason_cleanup = "Cleanup"

-- ConvertDeploymentConditionsToStandardForm
unfoldable pub convert_deployment_conditions : List DeploymentCondition → List Condition
convert_deployment_conditions [] = []
convert_deployment_conditions (c ∷ cs) =
    record {
      type = c.type;
      status = c.status;
      reason = c.reason;
      message = c.message;
      last_transition_time = c.last_transition_time;
    }
    ∷ convert_deployment_conditions cs

-- metav1.Condition{Type: ConditionReady, …}
abbrev pub ready : String → String → String → Condition
ready status reason text = record {
  type = condition_ready;
  status = status;
  reason = reason;
  message = text;
  last_transition_time = "";
}

module _ {F : Type 0} (r : Reconciler F) where
  open r use {client, library}

  -- setConditions with one condition
  unfoldable pub set_conditions : Application → Condition → Application
  set_conditions app c =
      let status = app.status in
      record app {
        status = record status { conditions = library.set_status_condition status.conditions c };
      }

  status_updated : Result Application → M F Outcome
  status_updated (ok _) = pure done
  status_updated (err e) = if client.is_conflict e then pure requeue else fail e

  unfoldable pub do_update_status : Application → M F Outcome
  unfolding status_updated
  do_update_status app = do
    updated ← attempt (call (update_status app) (λ h. client.update_status h app))
    status_updated updated

  -- errors.Join(err, statusErr): there is an error in any case. controller-runtime does not look at a
  -- Result that comes with an error, so the requeue of the status update is dropped here.
  pub joined : Error → Result Outcome → M F Outcome
  joined e (ok _) = fail e
  joined e (err status_err) = fail (join e status_err)

  unfoldable pub update_status_with_error : Application → Error → String → M F Outcome
  unfolding joined
  update_status_with_error app e reason = do
    result ← attempt (do_update_status (set_conditions app (ready "False" reason (message e))))
    joined e result

  -- if err := …; err != nil { return r.updateStatusWithError(ctx, &app, err, reason) }
  or_report : {A : Type 0} → Application → String → Result A → (A → M F Outcome) → M F Outcome
  or_report app reason (ok a) rest = rest a
  or_report app reason (err e) rest = update_status_with_error app e reason

  unfoldable pub then_or_report :
      {A : Type 0} → Application → EventMap → M F A → (A → M F Outcome) → M F Outcome
  unfolding or_report
  then_or_report app events m rest = do
    result ← attempt m
    or_report app events.upsert_failed result rest

  set_ready : Application → Option Condition → Application
  set_ready app none = app
  set_ready app (some c) = set_conditions app (ready c.status c.reason c.message)

  -- After reconcileDeployment: the Ready condition follows the Deployment's Available.
  pub finish : Option (Object Kind.deployment × Application) → M F Outcome
  unfolding set_ready
  finish none = pure panicked
  finish (some (deploy, app)) = do_update_status (
      set_ready app (
        library.find_status_condition (convert_deployment_conditions deploy.spec.conditions)
          "Available"))

  -- The body of Reconcile from reconcileServiceAccount on.
  unfoldable pub reconcile_owned : Application → M F Outcome
  unfolding finish
  reconcile_owned app =
      then_or_report app service_account_events (reconcile_service_account r app) λ _.
        then_or_report app role_binding_events (reconcile_role_bindings r app) λ _.
          then_or_report app cluster_role_binding_events (reconcile_cluster_role_bindings r app)
            λ _. then_or_report app service_events (reconcile_service r app) λ _.
              then_or_report app lb_service_events (reconcile_lb_service r app) λ _.
                then_or_report app pod_monitor_events (reconcile_pod_monitor r app) λ _.
                  then_or_report app ingress_route_events (reconcile_ingress_route r app) λ _.
                    then_or_report app cron_job_events (reconcile_cron_jobs r app)
                      λ _. then_or_report app deployment_events (reconcile_deployment r app) finish

  -- AddFinalizer and the Update
  unfoldable pub add_finalizer : Application → M F Outcome
  add_finalizer app = do
    let finalized = library.add_finalizer app finalizer_name
    _ ← call (update finalized) (λ h. client.update h finalized)
    pure done

  -- The clean-up of ClusterRoleBindings, RemoveFinalizer and the Update
  unfoldable pub finalize : Application → M F Outcome
  finalize app = do
    eventf event_type_normal event_reason_cleanup
    ensure_no_cluster_role_bindings r app
    let released = library.remove_finalizer app finalizer_name
    _ ← call (update released) (λ h. client.update h released)
    pure done

  -- The two branches on the deletion timestamp.
  live : Application → M F Outcome
  live app =
      if not (library.contains_finalizer app finalizer_name)
      then add_finalizer app
      else reconcile_owned app

  deleted : Application → M F Outcome
  deleted app = if library.contains_finalizer app finalizer_name then finalize app else pure done

  -- if len(app.Status.Conditions) == 0 { … }, and what follows
  initialise : Application → List Condition → M F Outcome
  unfolding live deleted
  initialise app [] =
      do_update_status
        (set_conditions app (ready "Unknown" "Reconciling" "Starting reconciliation"))
  initialise app (_ ∷ _) = if not app.is_deleted then live app else deleted app

  -- The body of Reconcile once the Application has been read.
  unfoldable pub reconcile_application : Application → M F Outcome
  unfolding initialise
  reconcile_application app = initialise app app.status.conditions

  got : Result Application → M F Outcome
  got (ok app) = reconcile_application app
  got (err e) = if client.is_not_found e then pure done else fail e

  unfoldable pub reconcile : NamespacedName → M F Outcome
  unfolding got
  reconcile name = do
    answer ← attempt (call (get_application name) (λ h. client.get_application h name))
    got answer
