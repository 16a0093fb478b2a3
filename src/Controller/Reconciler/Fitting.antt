-- ===== src/Controller/Reconciler/Fitting.antt =====
-- What the specs of the objects that a reconciler writes have in common, given what its image finder
-- answers.
use application_controller.Common.{Bool, true, false, ◌≡◌}
use application_controller.Kube.{Kind, Object, Spec}
use application_controller.Api.{Application, ImageSpec, CronJobSpec}
use application_controller.Images.ImageRef.{ImageRef}
use application_controller.Controller.State.{M}
use application_controller.Controller.State.Keeps.{Keeps, Gives, IsHonest, Keeps-Gives}
use application_controller.Controller.Mutators.Deployments.{mutate_deployment}
use application_controller.Controller.Mutators.CronJobs.{mutate_cron_job}
use application_controller.Controller.Resource.Rightful.{IsSound}
use application_controller.Controller.Reconciler.{Reconciler}

-- The kinds of objects that run no container.
abbrev pub is_plain : Kind → Bool
is_plain Kind.deployment = false
is_plain Kind.cron_job = false
is_plain _ = true

-- Objects without containers fit, and so do a Deployment and a CronJob that the mutators make with
-- an image that the finder may answer.
pub record IsFitting {F : Type 0} (H : F → Type 0) (Fits : (k : Kind) → Spec k → Type 0)
    (Answers : ImageSpec → ImageRef → Type 0) (r : Reconciler F) (app : Application) : Type 0 where
  pub honest : IsHonest H (IsSound r.library app Fits) Answers r.image_finder
  pub plain : (k : Kind) → is_plain k ≡ true → (spec : Spec k) → Fits k spec
  pub deployment :
      (ref : ImageRef)
      → Answers app.spec.image ref
      → (o : Object Kind.deployment)
      → Fits Kind.deployment (mutate_deployment r.library app ref o).spec
  pub cron_job :
      (job : CronJobSpec) (ref : ImageRef)
      → Answers app.spec.image ref
      → (o : Object Kind.cron_job) → Fits Kind.cron_job (mutate_cron_job app job ref o).spec

module _ {F : Type 0} (H : F → Type 0) (Fits : (k : Kind) → Spec k → Type 0)
    (Answers : ImageSpec → ImageRef → Type 0) (r : Reconciler F) (app : Application)
    (fit : IsFitting H Fits Answers r app) where
  pub plain-Gives :
      (k : Kind) (mutate_fn : Object k → M F (Object k))
      → is_plain k ≡ true
      → ((o : Object k) → Keeps H (IsSound r.library app Fits) (mutate_fn o))
      → (o : Object k) → Gives H (IsSound r.library app Fits) (λ o. Fits k o.spec) (mutate_fn o)
  plain-Gives k mutate_fn plain keeps o = Keeps-Gives _ _ (λ a. fit.plain k plain a.spec) (keeps o)
