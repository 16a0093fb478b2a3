-- ===== src/Operator/FirstImage.antt =====
-- Which image the first container of a pod runs after the mutators of internal/controller.
use application_controller.Common.{String, Option, none, some, List, [], ◌∷◌, ◌≡◌, refl, ◌∙◌, ap}
use application_controller.Kube.{Container, PodSpec}
use application_controller.Api.{Application, CronJobSpec, SecurityContext}
use application_controller.Images.ImageRef.{ImageRef, to_string}
use application_controller.Controller.Mutators.Pods.{update_first, secure_container, secure_pod}
use application_controller.Controller.Mutators.Deployments as Deployments
use application_controller.Controller.Mutators.Deployments.{mutate_deployment, join_host_network}
use application_controller.Controller.Mutators.CronJobs as CronJobs
use application_controller.Controller.Mutators.CronJobs.{mutate_cron_job}
use application_controller.Controller.Reconciler.Owned.{first_image}

first_image-update_first :
    (f : Container → Container) (image : String) (cs : List Container)
    → ((c : Container) → (f c).image ≡ image)
    → first_image (update_first f cs) ≡ some image
unfolding first_image update_first
first_image-update_first f image [] made = ap (λ i. some i) (made _)
first_image-update_first f image (c ∷ cs) made = ap (λ i. some i) (made c)

image-secure_container :
    (context : Option SecurityContext) (c : Container)
    → (secure_container context c).image ≡ c.image
unfolding secure_container
image-secure_container none c = refl
image-secure_container (some sc) c = refl

containers-secure_pod :
    (context : Option SecurityContext) (p : PodSpec)
    → (secure_pod context p).containers ≡ p.containers
unfolding secure_pod
containers-secure_pod none p = refl
containers-secure_pod (some sc) p = refl

module _ (app : Application) (ref : ImageRef) where
  pub first_image-deployment :
      (p : PodSpec)
      → first_image (Deployments.mutate_pod app ref p).containers ≡ some (to_string ref)
  unfolding Deployments.mutate_pod Deployments.mutate_container
  first_image-deployment p =
      ap first_image (containers-secure_pod app.spec.security_context _)
      ∙ first_image-update_first (Deployments.mutate_container app ref) (to_string ref) _
          (λ c. image-secure_container app.spec.security_context _)

  pub first_image-cron_job :
      (job : CronJobSpec) (p : PodSpec)
      → first_image (CronJobs.mutate_pod app job ref p).containers ≡ some (to_string ref)
  unfolding CronJobs.mutate_pod CronJobs.mutate_container
  first_image-cron_job job p =
      ap first_image (containers-secure_pod app.spec.security_context _)
      ∙ first_image-update_first (CronJobs.mutate_container app job ref) (to_string ref) _
          (λ c. image-secure_container app.spec.security_context _)
