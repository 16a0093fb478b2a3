-- ===== src/Examples/Repeating.antt =====
-- An example of the theorem on a repeated reconciliation of a Service.
use application_controller.Common.{Option, none, some, [], ◌∷◌, ◌==◌, Option, if◌then◌else◌}
use application_controller.Errors.{Result, ok, err}
use application_controller.Kube.{name_eq, ServicePort, Kind, Object}
use application_controller.Controller.State.{Client, updated, State}
use application_controller.Controller.Reconciler.{Reconciler}
use application_controller.Controller.Reconciler.Zero.{zero_spec}
use application_controller.Controller.Cluster.{name_of, or_given, Objects, stored}
use application_controller.Examples.Cluster.{
  no_meta, reference_to, web, cluster_with, reconciler_with, web_name, not_found,
}

abbrev old_port : ServicePort
old_port = record {
  name = "web";
  protocol = "TCP";
  app_protocol = none;
  port = 80;
  target_port = "web";
  node_port = 30080;
}

-- A Service of the Application from before its port was changed.
abbrev old_service : Object Kind.service
old_service =
    let spec = zero_spec Kind.service in
    record {
      meta = reference_to web (record no_meta { name = "web"; namespace = "prod" });
      spec = record spec { ports = old_port ∷ [] };
    }

abbrev held : Objects
held Kind.service n = if web_name == n then some old_service else none
held _ n = none

abbrev read : (k : Kind) → Option (Object k) → Result (Object k)
read k none = err not_found
read k (some o) = ok o

-- An API server that holds objects.
abbrev server : Client
server = record (cluster_with web) {
  get = λ calls k name. read k (stored held calls k name);
  before = λ calls k o. ok (or_given k o (stored held calls k (name_of k o)));
  commit = λ calls k o. ok (updated, o);
}

abbrev live : Reconciler (Unit {0})
live = reconciler_with server
