-- ===== src/Controller/Mutators/Settled.antt =====
-- What a Mutate function of internal/controller makes of an object that it has already made.
pub mod Sections
use application_controller.Common.{
  String, Bool, true, false, not, ◌||◌, Option, none, some, List, [], ◌∷◌, GoMap, insert, Eq,
  string_eq, ◌==◌, beq_refl, ◌≡◌, refl, sym, ◌∙◌, ap, arith, if◌then◌else◌,
}
use application_controller.Errors.{Result, ok, err}
use application_controller.Kube.{Container, PodSpec, CronJobObjectSpec, ObjectMeta, Kind, Object}
use application_controller.Api.{Application, CronJobSpec, Ingress, Metrics, SecurityContext}
use application_controller.Images.ImageRef.{ImageRef, to_string}
use application_controller.Controller.Names.{service_account_name}
use application_controller.Controller.Ports.{reconcile_container_ports}
use application_controller.Controller.Ports.Count.{IsDistinct}
use application_controller.Controller.Ports.Settled.{reconcile_service_ports_idem}
use application_controller.Controller.Mutators.Pods.{
  volumes, mounts, update_first, secure_container, secure_pod, zero_container,
}
use application_controller.Controller.Mutators.Deployments as Deployments
use application_controller.Controller.Mutators.CronJobs as CronJobs
use application_controller.Controller.Mutators.CronJobs.{mutate_cron_job}
use application_controller.Controller.Mutators.Deployments.{join_host_network}

reconcile_container_ports_idem :
    (app : Application) (c : Container)
    → IsDistinct (λ p. p.name) app.spec.ports
    → reconcile_container_ports (reconcile_container_ports c.ports app.spec.ports) app.spec.ports
      ≡ reconcile_container_ports c.ports app.spec.ports
reconcile_container_ports_idem app c once =
    (reconcile_service_ports_idem [] [] c.ports app.spec.ports (λ n. ground arith) once).1

module _ (f : Container → Container) (settles : (c : Container) → f (f c) ≡ f c) where
  update_first_idem : (cs : List Container) → update_first f (update_first f cs) ≡ update_first f cs
  unfolding update_first
  update_first_idem [] = ap (λ c. c ∷ []) (settles zero_container)
  update_first_idem (c ∷ cs) = ap (λ d. d ∷ cs) (settles c)

module _ (app : Application) (ref : ImageRef) where
  abbrev deployed : Container → Container
  deployed c = record c {
    name = app.name;
    image = to_string ref;
    image_pull_policy = "Always";
    command = app.spec.command;
    args = app.spec.args;
    env = app.spec.env;
    env_from = app.spec.env_from;
    ports = reconcile_container_ports c.ports app.spec.ports;
    resources = app.spec.resources;
    liveness_probe = app.spec.probe;
    readiness_probe = app.spec.probe;
    volume_mounts = mounts app.spec.volumes;
  }

  deployed_idem :
      (context : Option SecurityContext) (c : Container)
      → IsDistinct (λ p. p.name) app.spec.ports
      → secure_container context (deployed (secure_container context (deployed c)))
        ≡ secure_container context (deployed c)
  unfolding secure_container
  deployed_idem none c once =
      ap (λ ps. record (deployed c) { ports = ps }) (reconcile_container_ports_idem app c once)
  deployed_idem (some sc) c once =
      ap (λ ps. let d = deployed c in record d { ports = ps; security_context = sc.inner })
        (reconcile_container_ports_idem app c once)

  deployment_container_idem :
      (c : Container)
      → IsDistinct (λ p. p.name) app.spec.ports
      → Deployments.mutate_container app ref (Deployments.mutate_container app ref c)
        ≡ Deployments.mutate_container app ref c
  unfolding Deployments.mutate_container
  deployment_container_idem c once = deployed_idem app.spec.security_context c once

  -- What the mutator sets in the pod after the host network.
  abbrev settings : (Container → Container) → Option SecurityContext → PodSpec → PodSpec
  settings f context q =
      let r = secure_pod context (record q {
        volumes = volumes app.spec.volumes;
        containers = update_first f q.containers;
      }) in
      record r { runtime_class_name = app.spec.runtime_class_name }

  abbrev placed : PodSpec → PodSpec
  placed p = record p {
    service_account_name = (service_account_name app).name;
    node_selector = app.spec.node_selector;
  }

  abbrev refilled :
      (Container → Container) → Bool → Option SecurityContext → PodSpec → List Container → PodSpec
  refilled f host_network context p cs =
      let r = settings f context (join_host_network host_network (placed p)) in
      record r { containers = cs }

  settings_idem :
      (f : Container → Container) (host_network : Bool) (context : Option SecurityContext)
      (p : PodSpec)
      → ((c : Container) → f (f c) ≡ f c)
      → settings f context (
          join_host_network host_network
            (placed (settings f context (join_host_network host_network (placed p)))))
        ≡ settings f context (join_host_network host_network (placed p))
  unfolding join_host_network secure_pod
  settings_idem f true none p settles =
      ap (refilled f true none p) (update_first_idem f settles p.containers)
  settings_idem f false none p settles =
      ap (refilled f false none p) (update_first_idem f settles p.containers)
  settings_idem f true (some sc) p settles =
      ap (refilled f true (some sc) p) (update_first_idem f settles p.containers)
  settings_idem f false (some sc) p settles =
      ap (refilled f false (some sc) p) (update_first_idem f settles p.containers)

  deployment_pod_idem :
      (p : PodSpec)
      → IsDistinct (λ q. q.name) app.spec.ports
      → Deployments.mutate_pod app ref (Deployments.mutate_pod app ref p)
        ≡ Deployments.mutate_pod app ref p
  unfolding Deployments.mutate_pod
  deployment_pod_idem p once =
      settings_idem (Deployments.mutate_container app ref) app.spec.host_network
        app.spec.security_context p (λ c. deployment_container_idem c once)

  -- What the mutator of CronJobs sets in the container.
  abbrev scheduled : CronJobSpec → Container → Container
  scheduled spec c = record c {
    name = app.name;
    image = to_string ref;
    image_pull_policy = "Always";
    command = spec.command;
    args = spec.args;
    env = app.spec.env;
    env_from = app.spec.env_from;
    resources = spec.resources;
    volume_mounts = mounts app.spec.volumes;
  }

  scheduled_idem :
      (context : Option SecurityContext) (spec : CronJobSpec) (c : Container)
      → secure_container context (scheduled spec (secure_container context (scheduled spec c)))
        ≡ secure_container context (scheduled spec c)
  unfolding secure_container
  scheduled_idem none spec c = refl
  scheduled_idem (some sc) spec c = refl

  cron_job_container_idem :
      (spec : CronJobSpec) (c : Container)
      → CronJobs.mutate_container app spec ref (CronJobs.mutate_container app spec ref c)
        ≡ CronJobs.mutate_container app spec ref c
  unfolding CronJobs.mutate_container
  cron_job_container_idem spec c = scheduled_idem app.spec.security_context spec c

  -- What it sets in the pod.
  abbrev job_settings : (Container → Container) → Option SecurityContext → PodSpec → PodSpec
  job_settings f context p =
      let q = secure_pod context (record p {
        service_account_name = (service_account_name app).name;
        node_selector = app.spec.node_selector;
        restart_policy = "OnFailure";
        volumes = volumes app.spec.volumes;
        containers = update_first f p.containers;
      }) in
      record q { runtime_class_name = app.spec.runtime_class_name }

  abbrev refilled_job :
      (Container → Container) → Option SecurityContext → PodSpec → List Container → PodSpec
  refilled_job f context p cs = let r = job_settings f context p in record r { containers = cs }

  job_settings_idem :
      (f : Container → Container) (context : Option SecurityContext) (p : PodSpec)
      → ((c : Container) → f (f c) ≡ f c)
      → job_settings f context (job_settings f context p) ≡ job_settings f context p
  unfolding secure_pod
  job_settings_idem f none p settles =
      ap (refilled_job f none p) (update_first_idem f settles p.containers)
  job_settings_idem f (some sc) p settles =
      ap (refilled_job f (some sc) p) (update_first_idem f settles p.containers)

  cron_job_pod_idem :
      (spec : CronJobSpec) (p : PodSpec)
      → CronJobs.mutate_pod app spec ref (CronJobs.mutate_pod app spec ref p)
        ≡ CronJobs.mutate_pod app spec ref p
  unfolding CronJobs.mutate_pod
  cron_job_pod_idem spec p =
      job_settings_idem (CronJobs.mutate_container app spec ref) app.spec.security_context p
        (cron_job_container_idem spec)

  -- If the ports of the Application have distinct names, then with the same image the mutator of
  -- Deployments leaves a pod template that it has made as it is. With the same image the mutator of
  -- CronJobs leaves a CronJob that it has made as it is, whatever the ports.
  pub mutate_cron_job_idem :
      (spec : CronJobSpec) (p : PodSpec) (cron_job : Object Kind.cron_job)
      → IsDistinct (λ q. q.name) app.spec.ports
      → (Deployments.mutate_pod app ref (Deployments.mutate_pod app ref p)
          ≡ Deployments.mutate_pod app ref p)
        × (mutate_cron_job app spec ref (mutate_cron_job app spec ref cron_job)
            ≡ mutate_cron_job app spec ref cron_job)
  unfolding mutate_cron_job
  mutate_cron_job_idem spec p cron_job once =
      let made = mutate_cron_job app spec ref cron_job in
      let old = made.spec in
      (
        deployment_pod_idem p once,
        ap (λ pod. record made { spec = record old { template = pod } })
            (cron_job_pod_idem spec cron_job.spec.template),
      )
