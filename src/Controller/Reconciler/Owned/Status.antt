-- ===== src/Controller/Reconciler/Owned/Status.antt =====
-- The image that reconcileDeployment (internal/controller/application_controller.go) notes in the
-- status is the one that the Deployment runs.
use application_controller.Common.{
  String, not, Option, none, some, ◌==◌, string_eq, eq_of_beq, ◌≡◌, sym, ◌∙◌, ap, subst, arith,
  Bool-cases, inl, inr,
}
use application_controller.Errors.{is, err_image_check_failed, Result, ok, err}
use application_controller.Kube.{Kind, Object}
use application_controller.Api.{Application}
use application_controller.Controller.Names.{deployment_name}
use application_controller.Controller.State.{State, pure, fail, eventf}
use application_controller.Controller.State.Steps.{
  if-true, if-false, bind-attempt, bind-eventf, bind_ok_inversion, fails,
}
use application_controller.Controller.Mutators.Deployments.{deployment_mutate}
use application_controller.Controller.Resource.{
  ensure_resource, event_type_normal, event_type_warning,
}
use application_controller.Controller.Resource.Committed.{Committed, ensure_resource-Committed}
use application_controller.Controller.Reconciler.{Reconciler, deployment_events}
use application_controller.Controller.Reconciler.Zero.{zero_object}
use application_controller.Controller.Reconciler.Owned.{
  event_image_check_failed, event_image_updated, first_image, set_image, note_image, with_image,
  deployed, reconcile_deployment,
}

module _ {F : Type 0} (r : Reconciler F) (app : Application) where
  open r use {client, library}

  note_image-image :
      (image : String) (noted : Application) (s : State F)
      → (note_image r app image s).0 ≡ ok noted
      → noted.status.image ≡ image
  unfolding note_image set_image pure
  note_image-image image noted s h = elim (Bool-cases (app.status.image == image)) [
    | inl same ↦
        let run =
          if-false {A = Application} (not (app.status.image == image)) _ (pure app) s
            (ap not same) in
        let noted_app : ok app ≡ ok noted = ap (λ p. p.0) (sym run) ∙ h in
        let equal : app ≡ noted = ground (arith, noted_app) in
        ap (λ (a : Application). a.status.image) (sym equal) ∙ eq_of_beq app.status.image image same
    | inr other ↦
        let run =
          if-true {A = Application} (not (app.status.image == image)) _ (pure app) s (ap not other)
          ∙ bind-eventf event_type_normal event_image_updated (λ _. set_image r app image) s in
        let stored = ap (λ p. p.0) (sym run) ∙ h in ground (arith, stored)
  ]

  with_image-image :
      (deploy d : Object Kind.deployment) (image : Option String) (noted : Application)
      (s : State F)
      → (with_image r app deploy image s).0 ≡ ok (some (d, noted))
      → (deploy ≡ d) × (image ≡ some noted.status.image)
  unfolding with_image pure
  with_image-image deploy d none noted s h = ground arith
  with_image-image deploy d (some image) noted s h =
      let (noted', noting, result, _) =
        bind_ok_inversion (note_image r app image) _ s (some (d, noted)) h in
      let same : (deploy, noted') ≡ (d, noted) = ground (arith, result) in
      (
        ap (λ p. p.0) same,
        ap (λ i. some i)
            (sym (note_image-image image noted' s noting)
              ∙ ap (λ (p : Object Kind.deployment × Application). p.1.status.image) same),
      )

  deployed-image :
      (result : Result (Object Kind.deployment)) (d : Object Kind.deployment) (noted : Application)
      (s : State F)
      → (deployed r app result s).0 ≡ ok (some (d, noted))
      → (result ≡ ok d) × (first_image d.spec.template.containers ≡ some noted.status.image)
  unfolding deployed fail
  deployed-image (err e) d noted s h = elim (Bool-cases (is e err_image_check_failed)) [
    | inl checked ↦
        let run = if-true (is e err_image_check_failed) _ (fail e) s checked in
        fails (eventf event_type_warning event_image_check_failed) e s (some (d, noted))
          (ap (λ p. p.0) (sym run) ∙ h)
    | inr other ↦
        let run = if-false (is e err_image_check_failed) _ (fail e) s other in
        let failed : err e ≡ ok (some (d, noted)) = ap (λ p. p.0) (sym run) ∙ h in
        ground (arith, failed)
  ]
  deployed-image (ok deploy) d noted s h =
      let (same, image) = with_image-image deploy d _ noted s h in
      (
        ap (λ x. ok x) same,
        subst
            (λ (x : Object Kind.deployment).
              first_image x.spec.template.containers ≡ some noted.status.image)
            same image,
      )

  -- If reconcileDeployment hands back a Deployment and the Application with its status, then the
  -- API server has accepted the Deployment as the mutate function made it with the Application's
  -- ownership, and the image in the status is that of the Deployment's first container.
  pub reconcile_deployment-image :
      (d : Object Kind.deployment) (noted : Application) (s : State F)
      → (reconcile_deployment r app s).0 ≡ ok (some (d, noted))
      → (first_image d.spec.template.containers ≡ some noted.status.image)
        × Committed library client app
            (deployment_name app)
            Kind.deployment
            (deployment_mutate library r.image_finder app)
            d
            (ensure_resource library client app
              (deployment_name app)
              Kind.deployment
              (zero_object Kind.deployment)
              (deployment_mutate library r.image_finder app)
              deployment_events
              s).1.history
  unfolding reconcile_deployment
  reconcile_deployment-image d noted s h =
      let run = bind-attempt _ (deployed r app) s in
      let (accepted, image) = deployed-image _ d noted _ (ap (λ p. p.0) (sym run) ∙ h) in
      (image, ensure_resource-Committed library client app _ _ _ _ d _ s accepted)
