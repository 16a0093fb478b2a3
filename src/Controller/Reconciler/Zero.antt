-- ===== src/Controller/Reconciler/Zero.antt =====
-- The zero values of the object variables that internal/controller/application_controller.go
-- declares, `var svc corev1.Service` and the like.
use application_controller.Common.{none, []}
use application_controller.Kube.{BindingSpec, Kind, Spec, Object}
use application_controller.Controller.Mutators.Pods.{zero_pod}

abbrev pub zero_binding : BindingSpec
zero_binding = record { subjects = []; role_ref = record { api_group = ""; kind = ""; name = "" } }

abbrev pub zero_spec : (k : Kind) → Spec k
zero_spec Kind.service_account = tt
zero_spec Kind.role_binding = zero_binding
zero_spec Kind.cluster_role_binding = zero_binding
zero_spec Kind.service = record { type = ""; ports = []; selector = [] }
zero_spec Kind.pod_monitor = record {
  pod_metrics_endpoints = [];
  selector = [];
  pod_target_labels = [];
}
zero_spec Kind.ingress_route = []
zero_spec Kind.deployment = record {
  selector = [];
  strategy_type = "";
  revision_history_limit = none;
  template_labels = [];
  template = zero_pod;
  conditions = [];
}
zero_spec Kind.cron_job = record {
  job_template_labels = [];
  concurrency_policy = "";
  schedule = "";
  successful_jobs_history_limit = none;
  failed_jobs_history_limit = none;
  template = zero_pod;
}

abbrev pub zero_object : (k : Kind) → Object k
zero_object k = record {
  meta = record { name = ""; namespace = ""; annotations = none; owner_references = [] };
  spec = zero_spec k;
}
