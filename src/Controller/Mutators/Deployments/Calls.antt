-- ===== src/Controller/Mutators/Deployments/Calls.antt =====
-- What the mutate function in Deployments.antt does: it asks only the image finder.
use application_controller.Common.{◌≡◌, subst, arith}
use application_controller.Kube.{Kind, Object}
use application_controller.Api.{Application, ImageSpec}
use application_controller.Images.ImageRef.{ImageRef}
use application_controller.Controller.State.{Call, ImageFinder, pure, fail, Library}
use application_controller.Controller.State.Keeps.{Gives, IsHonest, Gives-find_image}
use application_controller.Controller.Mutators.Deployments.{
  mutate_deployment, found_image, deployment_mutate,
}

module _ {F : Type 0} (H : F → Type 0) (Q : Call → Type 0) (Answers : ImageSpec → ImageRef → Type 0)
    (finder : ImageFinder F) where
  -- What holds of the object for each image that the finder may answer holds of what it returns.
  pub deployment_mutate-Gives :
      (library : Library) (app : Application) (R : Object Kind.deployment → Type 0)
      (o : Object Kind.deployment)
      → IsHonest H Q Answers finder
      → ((ref : ImageRef) → Answers app.spec.image ref → R (mutate_deployment library app ref o))
      → Gives H Q R (deployment_mutate library finder app o)
  unfolding deployment_mutate found_image pure fail
  deployment_mutate-Gives library app R o honest fits =
      Gives-find_image Answers finder app.spec.image R _ honest
        (λ ref answer. record {
          at = λ s h. (
            h,
            λ a same.
                let made : mutate_deployment library app ref o ≡ a = ground (arith, same) in
                subst R made (fits ref answer),
          );
        })
        (λ e. record { at = λ s h. (h, λ a same. ground (arith, same)) })
