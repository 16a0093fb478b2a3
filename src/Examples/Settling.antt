-- ===== src/Examples/Settling.antt =====
-- Examples of the theorems on what a mutator makes of an object that it has made.
use application_controller.Common.{true, [], ◌∷◌, ◌≡◌, refl, arith}
use application_controller.Errors.{ok}
use application_controller.Kube.{Kind, Object}
use application_controller.Api.{CronJobSpec, Metrics}
use application_controller.Controller.Names.{selector_labels}
use application_controller.Controller.Mutators.Deployments.{mutate_pod}
use application_controller.Controller.Mutators.CronJobs.{mutate_cron_job}
use application_controller.Controller.Mutators.Services.{lb_service_mutate}
use application_controller.Controller.Mutators.PodMonitors.{pod_monitor_mutate}
use application_controller.Controller.Mutators.IngressRoutes.{ingress_route_mutate}
use application_controller.Controller.Mutators.Settled.{mutate_cron_job_idem}
use application_controller.Controller.Mutators.Settled.Sections.{mutates_again}
use application_controller.Controller.Reconciler.Zero.{zero_object}
use application_controller.Examples.Mutating.{
  host_pod, web_ingress, guarded, guards, web_lb, balanced, balances,
}
use application_controller.Examples.Cluster.{web, web_ref, test_routes}

abbrev backup : CronJobSpec
backup = record { name = "backup"; schedule = "0 3 * * *"; command = []; args = []; resources = "" }

mutate_cron_job_idem_example :
    (mutate_pod web web_ref (mutate_pod web web_ref host_pod) ≡ mutate_pod web web_ref host_pod)
    × (mutate_cron_job web backup web_ref
          (mutate_cron_job web backup web_ref (zero_object Kind.cron_job))
        ≡ mutate_cron_job web backup web_ref (zero_object Kind.cron_job))
mutate_cron_job_idem_example =
    mutate_cron_job_idem web web_ref backup host_pod (zero_object Kind.cron_job) (λ n. ground arith)

abbrev web_metrics : Metrics
web_metrics = record { enabled = true; port_name = "web"; path = "" }

abbrev monitored : Object Kind.pod_monitor
monitored = record (zero_object Kind.pod_monitor) {
  spec = record {
    pod_metrics_endpoints = record { port = "web"; path = "/metrics" } ∷ [];
    selector = selector_labels web;
    pod_target_labels = "app.kubernetes.io/name" ∷ [];
  };
}

monitors : pod_monitor_mutate web web_metrics (zero_object Kind.pod_monitor) ≡ ok monitored
unfolding pod_monitor_mutate
monitors = refl

mutates_again_example :
    (lb_service_mutate web web_lb balanced ≡ ok balanced)
    × (pod_monitor_mutate web web_metrics monitored ≡ ok monitored)
    × (ingress_route_mutate test_routes web web_ingress guarded ≡ ok guarded)
mutates_again_example =
    mutates_again test_routes web web_lb web_metrics web_ingress (zero_object Kind.service) balanced
      (zero_object Kind.pod_monitor) monitored (zero_object Kind.ingress_route) guarded
      (λ n. ground arith) balances monitors guards
