-- ===== src/Controller/Mutators/Settled/Sections.antt =====
-- What the Mutate functions of internal/controller that can fail make of an object that they have
-- already made: those of lbservice.go, podmonitor.go and ingress_route.go.
use application_controller.Common.{
  String, Bool, true, false, not, Option, none, some, List, [], ◌∷◌, GoMap, insert, string_eq, ◌==◌,
  beq_refl, eq_of_beq, ◌≡◌, refl, sym, ◌∙◌, ap, arith, if◌then◌else◌,
}
use application_controller.Errors.{
  Error, sentinel, err_bad_host, err_no_ingress_route_port, Result, ok, err, ◌>>=◌,
}
use application_controller.Kube.{ContainerPort, ServicePort, Kind, Object}
use application_controller.Api.{Application, Ingress, LoadBalancer, Metrics}
use application_controller.Controller.Names.{external_dns_hostname_annotation}
use application_controller.Controller.Ports.{reconcile_service_ports}
use application_controller.Controller.Ports.Count.{count, IsDistinct}
use application_controller.Controller.Ports.Settled.{reconcile_service_ports_idem}
use application_controller.Controller.Mutators.Services.{
  service_port, add_to_map, lb_ports, app_ports_by_name, with_ports, lb_service_mutate,
}
use application_controller.Controller.Mutators.Services.LoadBalancers.{
  port_named, Selected, lb_ports-Selected,
}
use application_controller.Controller.Mutators.Hostname.{match_string}
use application_controller.Controller.Mutators.PodMonitors.{pod_monitor_mutate}
use application_controller.Controller.Mutators.IngressRoutes.{
  IngressRouteMutator, annotate, app_service, chosen_middlewares, ingress_port, routes_for,
  ingress_route_mutate,
}

insert_idem :
    {V : Type 0} (key : String) (v : V) (m : GoMap String V)
    → insert key v (insert key v m) ≡ insert key v m
unfolding insert
insert_idem key v [] = ground (arith, beq_refl key)
insert_idem key v ((i, old) ∷ m) = ground (arith, beq_refl key, insert_idem key v m)

annotate_idem :
    (target : String) (annotations : Option (GoMap String String))
    → annotate target (annotate target annotations) ≡ annotate target annotations
unfolding annotate
annotate_idem target none = ap (λ m. some m) (insert_idem _ target [])
annotate_idem target (some m) = ap (λ m. some m) (insert_idem _ target m)

add_to_map_idem :
    (key v : String) (m : Option (GoMap String String))
    → add_to_map (add_to_map m key v) key v ≡ add_to_map m key v
unfolding add_to_map
add_to_map_idem key v none = ap (λ m. some m) (insert_idem key v [])
add_to_map_idem key v (some m) = ap (λ m. some m) (insert_idem key v m)

-- What is computed without the object, and then put into it.
made_again :
    {A : Type 0} {k : Kind} (put : A → Object k → Object k) (r : Result A) (o made : Object k)
    → ((a : A) → r ≡ ok a → put a (put a o) ≡ put a o)
    → (r >>= λ a. ok (put a o)) ≡ ok made
    → (r >>= λ a. ok (put a made)) ≡ ok made
made_again put (err e) o made settles h = ground arith
made_again put (ok a) o made settles h =
    let same : put a o ≡ made = ground (arith, h) in
    ap (λ x. ok (put a x)) (sym same) ∙ ap (λ x. ok x) (settles a refl ∙ same)

guarded_again :
    {A : Type 0} (stop : Bool) (e : Error) (once again : Result A) (made : A)
    → (once ≡ ok made → again ≡ ok made)
    → (if stop then err e else once) ≡ ok made
    → (if stop then err e else again) ≡ ok made
guarded_again true e once again made step h = h
guarded_again false e once again made step h = step h

port_named-name :
    (n : String) (ps : List ContainerPort) (p : ContainerPort)
    → port_named n ps ≡ some p
    → (p.name == n) ≡ true
port_named-name n [] p h = ground arith
port_named-name n (q ∷ ps) p h = ground (arith, port_named-name n ps p)

count-Selected :
    (ps : List ContainerPort) (m : String) (ns : List String) (qs : List ServicePort)
    → Selected ps ns qs
    → count (λ q. q.name) m qs ≡ count (λ n. n) m ns
unfolding service_port
count-Selected ps m [] [] chosen = refl
count-Selected ps m [] (q ∷ qs) chosen = ground arith
count-Selected ps m (n ∷ ns) [] chosen = ground arith
count-Selected ps m (n ∷ ns) (q ∷ qs) (p, found, same, chosen) = ground (
  arith,
  eq_of_beq p.name n (port_named-name n ps p found),
  ap (λ (s : ServicePort). s.name) same,
  count-Selected ps m ns qs chosen,
)

with_ports_idem :
    (app : Application) (lb : LoadBalancer) (svc : Object Kind.service) (ports : List ServicePort)
    → IsDistinct (λ q. q.name) ports
    → with_ports app lb (with_ports app lb svc ports) ports ≡ with_ports app lb svc ports
unfolding with_ports
with_ports_idem app lb svc ports once =
    let made = with_ports app lb svc ports in
    let meta = made.meta in
    let spec = made.spec in
    let again = reconcile_service_ports spec.ports ports in
    ap
      (λ a. record { meta = record meta { annotations = a }; spec = record spec { ports = again } })
      (add_to_map_idem external_dns_hostname_annotation lb.host svc.meta.annotations)
    ∙ ap (λ ps. record made { spec = record spec { ports = ps } })
        (reconcile_service_ports_idem svc.spec.ports ports [] [] once (λ n. ground arith)).0

lb_service_mutate_again :
    (app : Application) (lb : LoadBalancer) (svc made : Object Kind.service)
    → IsDistinct (λ n. n) lb.port_names
    → lb_service_mutate app lb svc ≡ ok made
    → lb_service_mutate app lb made ≡ ok made
unfolding lb_service_mutate
lb_service_mutate_again app lb svc made once h =
    made_again (λ ports o. with_ports app lb o ports)
      (lb_ports (app_ports_by_name [] app.spec.ports) lb.port_names) svc made
      (λ ports chosen. with_ports_idem app lb svc ports (λ m. omega (
        arith,
        once m,
        count-Selected app.spec.ports m lb.port_names ports
            (lb_ports-Selected app.spec.ports lb.port_names ports chosen),
      )))
      h

pod_monitor_mutate_again :
    (app : Application) (metrics : Metrics) (mon made : Object Kind.pod_monitor)
    → pod_monitor_mutate app metrics mon ≡ ok made
    → pod_monitor_mutate app metrics made ≡ ok made
unfolding pod_monitor_mutate
pod_monitor_mutate_again app metrics mon made h =
    guarded_again _ _ _ _ made
      (made_again (λ s o. record o { spec = s }) (ok _) mon made (λ s chosen. refl)) h

ingress_route_mutate_again :
    (f : IngressRouteMutator) (app : Application) (ingress : Ingress)
    (ing made : Object Kind.ingress_route)
    → ingress_route_mutate f app ingress ing ≡ ok made
    → ingress_route_mutate f app ingress made ≡ ok made
unfolding ingress_route_mutate
ingress_route_mutate_again f app ingress ing made h =
    guarded_again (not (match_string ingress.host)) (sentinel err_bad_host) _ _ made
      (guarded_again (ingress_port app ingress == "") (sentinel err_no_ingress_route_port) _ _ made
        (made_again
          (λ routes o.
            let meta = o.meta in
            record {
              meta = record meta { annotations = annotate f.cname_target meta.annotations };
              spec = routes;
            })
          (routes_for f ingress.host (chosen_middlewares f ingress.traefik_middlewares)
            (app_service app (ingress_port app ingress)) ingress.auth)
          ing made
          (λ routes chosen.
            let meta = ing.meta in
            ap (λ a. record { meta = record meta { annotations = a }; spec = routes })
              (annotate_idem f.cname_target meta.annotations))))
      h

-- If the mutate functions of the load balancer Service, of the PodMonitor and of the IngressRoute
-- succeed, then they succeed again on what they have made, and leave it as it is. The names in the
-- loadBalancer section are distinct.
pub mutates_again :
    (f : IngressRouteMutator) (app : Application) (lb : LoadBalancer) (metrics : Metrics)
    (ingress : Ingress) (svc lb_made : Object Kind.service) (mon mon_made : Object Kind.pod_monitor)
    (ing ing_made : Object Kind.ingress_route)
    → IsDistinct (λ n. n) lb.port_names
    → lb_service_mutate app lb svc ≡ ok lb_made
    → pod_monitor_mutate app metrics mon ≡ ok mon_made
    → ingress_route_mutate f app ingress ing ≡ ok ing_made
    → (lb_service_mutate app lb lb_made ≡ ok lb_made)
      × (pod_monitor_mutate app metrics mon_made ≡ ok mon_made)
      × (ingress_route_mutate f app ingress ing_made ≡ ok ing_made)
mutates_again f app lb metrics ingress svc lb_made mon mon_made ing ing_made once lb_ok mon_ok
      ing_ok =
    (
      lb_service_mutate_again app lb svc lb_made once lb_ok,
      pod_monitor_mutate_again app metrics mon mon_made mon_ok,
      ingress_route_mutate_again f app ingress ing ing_made ing_ok,
    )
