-- ===== src/Controller/Mutators/PodMonitors.antt =====
-- podMonitorMutator.Mutate of internal/controller/podmonitor.go
use application_controller.Common.{String, ◌||◌, List, [], ◌∷◌, ◌==◌, string_eq, if◌then◌else◌}
use application_controller.Errors.{sentinel, err_no_metrics_port, Result, ok, err}
use application_controller.Kube.{ContainerPort, Kind, Object}
use application_controller.Api.{Application, Metrics}
use application_controller.Controller.Names.{selector_labels}

-- The loop for a port named "metrics" or "prometheus": the first one ends it.
unfoldable pub metrics_port : List ContainerPort → String
metrics_port [] = ""
metrics_port (p ∷ ps) =
    let rest = metrics_port ps in
    if p.name == "metrics" || p.name == "prometheus" then p.name else rest

unfoldable pub pod_monitor_mutate :
    Application → Metrics → Object Kind.pod_monitor → Result (Object Kind.pod_monitor)
pod_monitor_mutate app metrics mon =
    let port_name =
      if metrics.port_name == "" then metrics_port app.spec.ports else metrics.port_name in
    let path = if metrics.path == "" then "/metrics" else metrics.path in
    if port_name == ""
    then err (sentinel err_no_metrics_port)
    else ok (record mon {
      spec = record {
        pod_metrics_endpoints = record { port = port_name; path = path } ∷ [];
        selector = selector_labels app;
        pod_target_labels = "app.kubernetes.io/name" ∷ [];
      };
    })
