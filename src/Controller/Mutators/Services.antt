-- ===== src/Controller/Mutators/Services.antt =====
-- serviceMutator.Mutate and lbServiceMutator.Mutate of internal/controller/service.go and
-- lbservice.go
pub mod LoadBalancers
use application_controller.Common.{
  String, Option, none, some, List, [], ◌∷◌, GoMap, lookup, insert, string_eq, concat, Eq,
}
use application_controller.Errors.{
  Error, sentinel, wrap_before, err_unknown_lb_service_port, Result, ok, err, ◌>>=◌,
}
use application_controller.Kube.{ContainerPort, ServicePort, ServiceSpec, ObjectMeta, Kind, Object}
use application_controller.Api.{Application, LoadBalancer}
use application_controller.Controller.Names.{selector_labels, external_dns_hostname_annotation}
use application_controller.Controller.Ports.{reconcile_service_ports}

-- corev1.ServicePort{Name: p.Name, TargetPort: intstr.FromString(p.Name), …}
unfoldable pub service_port : ContainerPort → ServicePort
service_port p = record {
  name = p.name;
  protocol = p.protocol;
  app_protocol = none;
  port = p.container_port;
  target_port = p.name;
  node_port = 0;
}

unfoldable pub service_ports : List ContainerPort → List ServicePort
unfolding service_port
service_ports [] = []
service_ports (p ∷ ps) = service_port p ∷ service_ports ps

unfoldable pub service_mutate : Application → Object Kind.service → Result (Object Kind.service)
service_mutate app svc =
    let spec = svc.spec in
    ok (record svc {
      spec = record spec {
        ports = reconcile_service_ports spec.ports (service_ports app.spec.ports);
        selector = selector_labels app;
      };
    })

-- addToMap; `none` is the nil map
unfoldable pub add_to_map {ℓ} :
    {K V : Type ℓ} ⦃e : Eq K⦄ → Option (GoMap K V) → K → V → Option (GoMap K V)
add_to_map none key value = some (insert key value [])
add_to_map (some m) key value = some (insert key value m)

-- for _, port := range app.Spec.Ports { appPortsByName[port.Name] = port }
unfoldable pub app_ports_by_name :
    GoMap String ContainerPort → List ContainerPort → GoMap String ContainerPort
app_ports_by_name m [] = m
app_ports_by_name m (p ∷ ps) = app_ports_by_name (insert p.name p m) ps

-- fmt.Errorf("%w: %q", ErrUnknownLBServicePort, n)
unfoldable pub unknown_port : String → Error
unknown_port n =
    wrap_before (sentinel err_unknown_lb_service_port) (concat (": \"" ∷ n ∷ "\"" ∷ []))

-- The loop over lb.PortNames; a name that no port has ends it.
unfoldable pub lb_ports : GoMap String ContainerPort → List String → Result (List ServicePort)
unfolding service_port unknown_port
lb_ports by_name [] = ok []
lb_ports by_name (n ∷ ns) = elim (lookup n by_name) [
  | none ↦ err (unknown_port n)
  | some p ↦ (lb_ports by_name ns >>= λ ports. ok (service_port p ∷ ports))
]

-- The rest of the mutate function, with the ports that it has collected.
unfoldable pub with_ports :
    Application → LoadBalancer → Object Kind.service → List ServicePort → Object Kind.service
with_ports app lb svc ports =
    let spec = svc.spec in
    let meta = svc.meta in
    record {
      meta = record meta {
        annotations = add_to_map meta.annotations external_dns_hostname_annotation lb.host;
      };
      spec = record spec {
        type = "LoadBalancer";
        ports = reconcile_service_ports spec.ports ports;
        selector = selector_labels app;
      };
    }

-- The caller has seen that the Application has a loadBalancer section.
unfoldable pub lb_service_mutate :
    Application → LoadBalancer → Object Kind.service → Result (Object Kind.service)
unfolding with_ports
lb_service_mutate app lb svc = do
  ports ← lb_ports (app_ports_by_name [] app.spec.ports) lb.port_names
  ok (with_ports app lb svc ports)
