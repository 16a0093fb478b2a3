-- ===== src/Examples/Mutating.antt =====
-- Examples of the theorems on the mutators, the ports and the names.
use application_controller.Common.{
  lookup, true, ◌||◌, none, some, List, [], ◌∷◌, ◌++◌, ◌≡◌, refl, arith, concat, insert, All, In,
  string_eq,
}
use application_controller.Errors.{ok, err}
use application_controller.Kube.{ServicePort, PodSpec, Route, Kind, Object}
use application_controller.Controller.Mutators.Services.{
  service_port, lb_ports, app_ports_by_name, with_ports, lb_service_mutate,
}
use application_controller.Controller.Mutators.Services.LoadBalancers.{
  IsSelection, lb_service_mutate-IsSelection,
}
use application_controller.Api.{LoadBalancer, Ingress, IngressAuth}
use application_controller.Controller.Ports.{reconcile_service_ports}
use application_controller.Controller.Ports.Lookup.{find, find_last, find-reconcile_service_ports}
use application_controller.Controller.Ports.Count.{count, IsDistinct, count-reconcile_service_ports}
use application_controller.Controller.Mutators.Deployments.{mutate_pod}
use application_controller.Controller.Mutators.Deployments.Drift.{
  sidecars, pod_security, mutate_pod-sidecars,
}
use application_controller.Controller.Mutators.Pods.{zero_pod, zero_container}
use application_controller.Controller.Mutators.Hostname.{match_string, codes}
use application_controller.Controller.Mutators.Hostname.Language.{AllHost, match_string-AllHost}
use application_controller.Controller.Mutators.IngressRoutes.{
  validate, host_rule, chosen_middlewares, ingress_port, annotate, ingress_route_mutate,
}
use application_controller.Controller.Mutators.IngressRoutes.Rules.{
  IsGuarded, ingress_route_mutate-IsGuarded,
}
use application_controller.Controller.Reconciler.Zero.{zero_object}
use application_controller.Examples.Cluster.{web, web_port, web_ref, test_routes}

abbrev pub host_pod : PodSpec
host_pod = record zero_pod {
  host_network = true;
  containers = zero_container ∷ record zero_container { name = "sidecar" } ∷ [];
}

mutate_pod-sidecars_example :
    ((mutate_pod web web_ref host_pod).host_network ≡ (web.spec.host_network || true))
    × ((mutate_pod web web_ref host_pod).security_context ≡ pod_security none none)
    × (sidecars (mutate_pod web web_ref host_pod).containers
        ≡ record zero_container { name = "sidecar" } ∷ [])
mutate_pod-sidecars_example = mutate_pod-sidecars web web_ref host_pod

good_host : match_string "web.example.com" ≡ true
unfolding match_string
good_host = refl

match_string-AllHost_example : AllHost (codes "web.example.com")
match_string-AllHost_example = match_string-AllHost "web.example.com" good_host

abbrev auth : IngressAuth
auth = record { enabled = true; exclude_path_prefixes = "/public/" ∷ [] }

abbrev pub web_ingress : Ingress
web_ingress = record {
  host = "web.example.com";
  auth = some auth;
  port_name = "";
  traefik_middlewares = [];
}

abbrev pub guarded : Object Kind.ingress_route
guarded = elim (ingress_route_mutate test_routes web web_ingress (zero_object Kind.ingress_route)) [
  | ok o ↦ o
  | err e ↦ zero_object Kind.ingress_route
]

pub guards :
    ingress_route_mutate test_routes web web_ingress (zero_object Kind.ingress_route) ≡ ok guarded
unfolding ingress_route_mutate match_string validate ingress_port chosen_middlewares annotate concat
    insert
guards = refl

ingress_route_mutate-IsGuarded_example :
    (match_string "web.example.com" ≡ true)
    × (validate test_routes.auth_config ≡ ok tt)
    × All (IsGuarded test_routes web web_ingress auth) guarded.spec
    × (rest : List Route) × (last : Route) × (guarded.spec ≡ rest ++ last ∷ [])
    × (last.matches ≡ host_rule "web.example.com")
    × In (test_routes.auth_config.auth_middleware_name) last.middlewares
ingress_route_mutate-IsGuarded_example =
    ingress_route_mutate-IsGuarded test_routes web web_ingress auth (zero_object Kind.ingress_route)
      guarded refl refl guards

abbrev old_port : ServicePort
old_port = record {
  name = "web";
  protocol = "TCP";
  app_protocol = none;
  port = 80;
  target_port = "web";
  node_port = 30080;
}

abbrev new_port : ServicePort
new_port = record old_port { port = 8080; node_port = 0 }

has_old : find (λ (p : ServicePort). p.name) "web" (old_port ∷ []) ≡ some old_port
has_old = refl

wants_new : find_last (λ (p : ServicePort). p.name) "web" (new_port ∷ []) ≡ some new_port
wants_new = refl

find-reconcile_service_ports_example :
    (r : ServicePort) × (find
        (λ (p : ServicePort). p.name)
        "web"
        (reconcile_service_ports (old_port ∷ []) (new_port ∷ []))
      ≡ some r)
    × (r.target_port ≡ "web")
    × (r.protocol ≡ "TCP")
    × (r.port ≡ 80)
    × (r.node_port ≡ 30080)
find-reconcile_service_ports_example =
    find-reconcile_service_ports "web" (old_port ∷ []) (new_port ∷ []) old_port new_port has_old
      wants_new

one_port : (p : ServicePort) → IsDistinct (λ (q : ServicePort). q.name) (p ∷ [])
one_port p n = ground arith

count-reconcile_service_ports_example :
    count
      (λ (p : ServicePort). p.name)
      "web"
      (reconcile_service_ports (old_port ∷ []) (new_port ∷ []))
    ≡ count (λ p. p.name) "web" (new_port ∷ [])
count-reconcile_service_ports_example =
    count-reconcile_service_ports "web" (old_port ∷ []) (new_port ∷ []) (one_port old_port)
      (one_port new_port)

abbrev pub web_lb : LoadBalancer
web_lb = record { host = "web.example.com"; port_names = "web" ∷ [] }

abbrev pub balanced : Object Kind.service
balanced = with_ports web web_lb (zero_object Kind.service) (service_port web_port ∷ [])

pub balances : lb_service_mutate web web_lb (zero_object Kind.service) ≡ ok balanced
unfolding lb_service_mutate lb_ports app_ports_by_name insert lookup
balances = refl

lb_service_mutate-IsSelection_example :
    IsSelection web web_lb
      (zero_object Kind.service)
      (lb_service_mutate web web_lb (zero_object Kind.service))
lb_service_mutate-IsSelection_example =
    lb_service_mutate-IsSelection web web_lb (zero_object Kind.service)
