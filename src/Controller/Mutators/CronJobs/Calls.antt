-- ===== src/Controller/Mutators/CronJobs/Calls.antt =====
-- What the mutate function in CronJobs.antt does: it asks only the image finder.
use application_controller.Common.{◌≡◌, subst, arith}
use application_controller.Kube.{Kind, Object}
use application_controller.Api.{Application, ImageSpec, CronJobSpec}
use application_controller.Images.ImageRef.{ImageRef}
use application_controller.Controller.State.{Call, ImageFinder, pure, fail}
use application_controller.Controller.State.Keeps.{Gives, IsHonest, Gives-find_image}
use application_controller.Controller.Mutators.CronJobs.{
  mutate_cron_job, found_image, cron_job_mutate,
}

module _ {F : Type 0} (H : F → Type 0) (Q : Call → Type 0) (Answers : ImageSpec → ImageRef → Type 0)
    (finder : ImageFinder F) where
  -- What holds of the object for each image that the finder may answer holds of what it returns.
  pub cron_job_mutate-Gives :
      (app : Application) (job : CronJobSpec) (R : Object Kind.cron_job → Type 0)
      (o : Object Kind.cron_job)
      → IsHonest H Q Answers finder
      → ((ref : ImageRef) → Answers app.spec.image ref → R (mutate_cron_job app job ref o))
      → Gives H Q R (cron_job_mutate finder app job o)
  unfolding cron_job_mutate found_image pure fail
  cron_job_mutate-Gives app job R o honest fits =
      Gives-find_image Answers finder app.spec.image R _ honest
        (λ ref answer. record {
          at = λ s h. (
            h,
            λ a same.
                let made : mutate_cron_job app job ref o ≡ a = ground (arith, same) in
                subst R made (fits ref answer),
          );
        })
        (λ e. record { at = λ s h. (h, λ a same. ground (arith, same)) })
