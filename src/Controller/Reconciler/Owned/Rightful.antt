-- ===== src/Controller/Reconciler/Owned/Rightful.antt =====
-- The reconciliation of the objects in Owned.antt makes only rightful calls.
use application_controller.Common.{refl, String, not, Option, none, some, ◌==◌, string_eq}
use application_controller.Errors.{is, err_image_check_failed, Result, ok, err}
use application_controller.Kube.{Kind, Object, Spec}
use application_controller.Api.{Application, ImageSpec}
use application_controller.Controller.State.{Call}
use application_controller.Controller.State.Keeps.{
  Keeps, Keeps-pure, Keeps-fail, Keeps-lift, Keeps-attempt, Keeps-if, Keeps-eventf, Keeps-bind,
}
use application_controller.Controller.Mutators.Deployments.Calls.{deployment_mutate-Gives}
use application_controller.Controller.Resource.Rightful.{
  IsSound, ensure_resource-Keeps, reconcile_resource-Keeps,
}
use application_controller.Controller.Reconciler.{Reconciler}
use application_controller.Controller.Reconciler.Fitting.{IsFitting, plain-Gives}
use application_controller.Images.ImageRef.{ImageRef}
use application_controller.Controller.Reconciler.Owned.{
  with_section, reconcile_service_account, reconcile_service, reconcile_lb_service,
  reconcile_pod_monitor, reconcile_ingress_route, set_image, note_image, with_image, deployed,
  reconcile_deployment,
}

with_section-Keeps :
    {F : Type 0} (H : F → Type 0) (Q : Call → Type 0) {A B : Type 0} (section : Option A)
    (f : A → B → Result B) (b : B)
    → Keeps H Q (with_section section f b)
unfolding with_section
with_section-Keeps H Q none f b = Keeps-pure b
with_section-Keeps H Q (some a) f b = Keeps-lift _

module _ {F : Type 0} (H : F → Type 0) (Fits : (k : Kind) → Spec k → Type 0)
    (Answers : ImageSpec → ImageRef → Type 0) (r : Reconciler F) (app : Application)
    (fit : IsFitting H Fits Answers r app) where
  open r use {client, library}

  abbrev Q : Call → Type 0
  Q = IsSound library app Fits

  pub reconcile_service_account-Keeps : Keeps H Q (reconcile_service_account r app)
  unfolding reconcile_service_account
  reconcile_service_account-Keeps =
      Keeps-bind _ _
        (ensure_resource-Keeps H Fits library client app _ _ _ _ _
          (plain-Gives H Fits Answers r app fit _ _ refl Keeps-pure))
        λ _. Keeps-pure tt

  pub reconcile_service-Keeps : Keeps H Q (reconcile_service r app)
  unfolding reconcile_service
  reconcile_service-Keeps =
      Keeps-bind _ _
        (reconcile_resource-Keeps H Fits library client app _ _ _ _ _ _
          λ _. plain-Gives H Fits Answers r app fit _ _ refl λ o. Keeps-lift _)
        λ _. Keeps-pure tt

  pub reconcile_lb_service-Keeps : Keeps H Q (reconcile_lb_service r app)
  unfolding reconcile_lb_service
  reconcile_lb_service-Keeps =
      Keeps-bind _ _
        (reconcile_resource-Keeps H Fits library client app _ _ _ _ _ _
          (λ _. plain-Gives H Fits Answers r app fit _ _ refl (with_section-Keeps H Q _ _)))
        λ _. Keeps-pure tt

  pub reconcile_pod_monitor-Keeps : Keeps H Q (reconcile_pod_monitor r app)
  unfolding reconcile_pod_monitor
  reconcile_pod_monitor-Keeps =
      Keeps-if (not r.supports_prometheus) _ _ (λ _. Keeps-pure tt)
        λ _.
          Keeps-bind _ _
            (reconcile_resource-Keeps H Fits library client app _ _ _ _ _ _
              (λ _. plain-Gives H Fits Answers r app fit _ _ refl (with_section-Keeps H Q _ _)))
            λ _. Keeps-pure tt

  pub reconcile_ingress_route-Keeps : Keeps H Q (reconcile_ingress_route r app)
  unfolding reconcile_ingress_route
  reconcile_ingress_route-Keeps =
      Keeps-if (not r.supports_traefik) _ _ (λ _. Keeps-pure tt)
        λ _.
          Keeps-bind _ _
            (reconcile_resource-Keeps H Fits library client app _ _ _ _ _ _
              (λ _. plain-Gives H Fits Answers r app fit _ _ refl (with_section-Keeps H Q _ _)))
            λ _. Keeps-pure tt

  set_image-Keeps : (image : String) → Keeps H Q (set_image r app image)
  unfolding set_image
  set_image-Keeps image = record { at = λ s h. h }

  note_image-Keeps : (image : String) → Keeps H Q (note_image r app image)
  unfolding note_image
  note_image-Keeps image =
      Keeps-if (not (app.status.image == image)) _ _
        (λ _. Keeps-bind _ _ (Keeps-eventf _ _ tt) λ _. set_image-Keeps image) λ _. Keeps-pure app

  found_image-Keeps :
      (deploy : Object Kind.deployment) (image : Option String)
      → Keeps H Q (with_image r app deploy image)
  unfolding with_image
  found_image-Keeps deploy none = Keeps-pure none
  found_image-Keeps deploy (some image) =
      Keeps-bind _ _ (note_image-Keeps image) λ noted. Keeps-pure _

  deployed-Keeps : (result : Result (Object Kind.deployment)) → Keeps H Q (deployed r app result)
  unfolding deployed
  deployed-Keeps (err e) =
      Keeps-if (is e err_image_check_failed) _ _
        (λ _. Keeps-bind _ _ (Keeps-eventf _ _ tt) λ _. Keeps-fail e) λ _. Keeps-fail e
  deployed-Keeps (ok deploy) = found_image-Keeps deploy _

  pub reconcile_deployment-Keeps : Keeps H Q (reconcile_deployment r app)
  unfolding reconcile_deployment
  reconcile_deployment-Keeps =
      Keeps-bind _ _
        (Keeps-attempt _ (
          ensure_resource-Keeps H Fits library client app _ _ _ _ _ (λ o.
            deployment_mutate-Gives H Q Answers r.image_finder library app _ o fit.honest
              λ ref a. fit.deployment ref a o)))
        deployed-Keeps
