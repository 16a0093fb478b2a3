-- ===== src/Controller/Reconciler/Owned.antt =====
-- reconcileServiceAccount, reconcileService, reconcileLBService, reconcilePodMonitor,
-- reconcileIngressRoute and reconcileDeployment: objects of which an Application owns at most one.
pub mod Rightful
pub mod Status
pub mod Collisions
use application_controller.Common.{
  String, Bool, true, false, not, Option, none, some, is_some, List, [], ◌∷◌, ◌==◌, string_eq,
  if◌then◌else◌,
}
use application_controller.Errors.{Error, is, err_image_check_failed, Result, ok, err}
use application_controller.Kube.{Kind, Object, Container}
use application_controller.Api.{Application, ApplicationStatus, LoadBalancer, Metrics, Ingress}
use application_controller.Controller.Names.{
  service_account_name, service_name, lb_service_name, pod_monitor_name, ingress_route_name,
  deployment_name,
}
use application_controller.Controller.State.{
  State, Call, M, pure, fail, lift, eventf, attempt, ◌>>=◌, ◌>>◌,
}
use application_controller.Controller.Mutators.Services.{service_mutate, lb_service_mutate}
use application_controller.Controller.Mutators.PodMonitors.{pod_monitor_mutate}
use application_controller.Controller.Mutators.IngressRoutes.{ingress_route_mutate}
use application_controller.Controller.Mutators.Deployments.{deployment_mutate}
use application_controller.Controller.Resource.{
  reconcile_resource, ensure_resource, event_type_normal, event_type_warning,
}
use application_controller.Controller.Reconciler.{
  Reconciler, service_account_events, service_events, lb_service_events, pod_monitor_events,
  ingress_route_events, deployment_events,
}
use application_controller.Controller.Reconciler.Zero.{zero_object}

abbrev pub event_image_check_failed : String
event_image_check_failed = "ImageCheckFailed"

abbrev pub event_image_updated : String
event_image_updated = "ImageUpdated"

abbrev pub discard : {F : Type 0} {A : Type 0} → M F A → M F (Unit {0})
discard m = m >>= λ _. pure tt

-- len(xs) > 0
unfoldable pub is_nonempty : {A : Type 0} → List A → Bool
is_nonempty [] = false
is_nonempty (_ ∷ _) = true

-- A mutate function for a section of the spec; it is called only when the section is there.
with_section : {F : Type 0} {A B : Type 0} → Option A → (A → B → Result B) → B → M F B
with_section none f b = pure b
with_section (some a) f b = lift (f a b)

-- app.Spec.Metrics != nil && app.Spec.Metrics.Enabled
metrics_enabled : Option Metrics → Bool
metrics_enabled none = false
metrics_enabled (some m) = m.enabled

-- Containers[0].Image; `none` is the panic on an empty list
unfoldable pub first_image : List Container → Option String
first_image [] = none
first_image (c ∷ cs) = some c.image

module _ {F : Type 0} (r : Reconciler F) (app : Application) where
  open r use {client, library}

  unfoldable pub reconcile_service_account : M F (Unit {0})
  reconcile_service_account = discard (
      ensure_resource library client app (service_account_name app) Kind.service_account
        (zero_object Kind.service_account) pure service_account_events)

  unfoldable pub reconcile_service : M F (Unit {0})
  unfolding is_nonempty
  reconcile_service = discard (
      reconcile_resource library client app (service_name app) Kind.service
        (zero_object Kind.service) (λ svc. lift (service_mutate app svc))
        (is_nonempty app.spec.ports) service_events)

  unfoldable pub reconcile_lb_service : M F (Unit {0})
  unfolding with_section
  reconcile_lb_service = discard (
      reconcile_resource library client app (lb_service_name app) Kind.service
        (zero_object Kind.service) (with_section app.spec.load_balancer (lb_service_mutate app))
        (is_some app.spec.load_balancer) lb_service_events)

  unfoldable pub reconcile_pod_monitor : M F (Unit {0})
  unfolding with_section metrics_enabled
  reconcile_pod_monitor =
      if not r.supports_prometheus
      then pure tt
      else discard (
          reconcile_resource library client app (pod_monitor_name app) Kind.pod_monitor
            (zero_object Kind.pod_monitor) (with_section app.spec.metrics (pod_monitor_mutate app))
            (metrics_enabled app.spec.metrics) pod_monitor_events)

  unfoldable pub reconcile_ingress_route : M F (Unit {0})
  unfolding with_section
  reconcile_ingress_route =
      if not r.supports_traefik
      then pure tt
      else discard (
          reconcile_resource library client app (ingress_route_name app) Kind.ingress_route
            (zero_object Kind.ingress_route)
            (with_section app.spec.ingress (ingress_route_mutate r.ingress_routes app))
            (is_some app.spec.ingress) ingress_route_events)

  -- app.Status.Image = newImage; app.Status.ImageLastUpdateTime = metav1.Now()
  set_image : String → M F Application
  set_image image s =
      let status = app.status in
      (
        ok (record app {
          status = record status { image = image; image_last_update_time = library.now s.history };
        }),
        s,
      )

  note_image : String → M F Application
  unfolding set_image
  note_image image =
      if not (app.status.image == image)
      then (eventf event_type_normal event_image_updated >>= λ _. set_image image)
      else pure app

  with_image :
      Object Kind.deployment → Option String → M F (Option (Object Kind.deployment × Application))
  unfolding note_image
  with_image deploy none = pure none
  with_image deploy (some image) = note_image image >>= λ noted. pure (some (deploy, noted))

  -- What follows ensureResource.
  deployed : Result (Object Kind.deployment) → M F (Option (Object Kind.deployment × Application))
  unfolding with_image first_image
  deployed (err e) =
      if is e err_image_check_failed
      then (eventf event_type_warning event_image_check_failed >>= λ _. fail e)
      else fail e
  deployed (ok deploy) = with_image deploy (first_image deploy.spec.template.containers)

  -- The Deployment, and the Application with its new status; `none` is the panic on a Deployment
  -- that has come back from the API server without a container.
  unfoldable pub reconcile_deployment : M F (Option (Object Kind.deployment × Application))
  unfolding deployed
  reconcile_deployment = do
    result ← attempt (
        ensure_resource library client app (deployment_name app) Kind.deployment
          (zero_object Kind.deployment) (deployment_mutate library r.image_finder app)
          deployment_events)
    deployed result
