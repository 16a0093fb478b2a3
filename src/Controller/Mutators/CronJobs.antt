-- ===== src/Controller/Mutators/CronJobs.antt =====
-- cronJobMutator.Mutate of internal/controller/cronjob.go
pub mod Calls
use application_controller.Common.{String, Option, some, List, [], ◌∷◌}
use application_controller.Errors.{Error, Result, ok, err}
use application_controller.Kube.{Container, PodSpec, CronJobObjectSpec, Kind, Object}
use application_controller.Api.{Application, CronJobSpec}
use application_controller.Images.ImageRef.{ImageRef, to_string}
use application_controller.Controller.Names.{service_account_name, cron_job_selector_labels}
use application_controller.Controller.State.{ImageFinder, M, pure, fail, ◌>>=◌, attempt, find_image}
use application_controller.Controller.Mutators.Pods.{
  volumes, mounts, update_first, secure_container, secure_pod,
}
use application_controller.Controller.Mutators.Deployments.{image_check_failed}

unfoldable pub mutate_container : Application → CronJobSpec → ImageRef → Container → Container
unfolding secure_container
mutate_container app spec ref c = secure_container app.spec.security_context (record c {
  name = app.name;
  image = to_string ref;
  image_pull_policy = "Always";
  command = spec.command;
  args = spec.args;
  env = app.spec.env;
  env_from = app.spec.env_from;
  resources = spec.resources;
  volume_mounts = mounts app.spec.volumes;
})

unfoldable pub mutate_pod : Application → CronJobSpec → ImageRef → PodSpec → PodSpec
unfolding mutate_container secure_pod update_first
mutate_pod app spec ref p =
    let q = secure_pod app.spec.security_context (record p {
      service_account_name = (service_account_name app).name;
      node_selector = app.spec.node_selector;
      restart_policy = "OnFailure";
      volumes = volumes app.spec.volumes;
      containers = update_first (mutate_container app spec ref) p.containers;
    }) in
    record q { runtime_class_name = app.spec.runtime_class_name }

-- The part of the mutate function after the image has been found.
unfoldable pub mutate_cron_job :
    Application → CronJobSpec → ImageRef → Object Kind.cron_job → Object Kind.cron_job
unfolding mutate_pod
mutate_cron_job app spec ref cron_job =
    let old = cron_job.spec in
    record cron_job {
      spec = record old {
        job_template_labels = cron_job_selector_labels app spec.name;
        concurrency_policy = "Forbid";
        schedule = spec.schedule;
        successful_jobs_history_limit = some 3;
        failed_jobs_history_limit = some 3;
        template = mutate_pod app spec ref old.template;
      };
    }

module _ {F : Type 0} (finder : ImageFinder F) where
  found_image : {A : Type 0} → Result ImageRef → (ImageRef → A) → M F A
  found_image (err e) f = fail (image_check_failed e)
  found_image (ok ref) f = pure (f ref)

  unfoldable pub cron_job_mutate :
      Application → CronJobSpec → Object Kind.cron_job → M F (Object Kind.cron_job)
  unfolding found_image
  cron_job_mutate app spec cron_job = do
    found ← attempt (find_image finder app.spec.image)
    found_image found (λ ref. mutate_cron_job app spec ref cron_job)
