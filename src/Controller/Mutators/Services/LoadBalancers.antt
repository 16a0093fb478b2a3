-- ===== src/Controller/Mutators/Services/LoadBalancers.antt =====
-- Which ports lbServiceMutator.Mutate (internal/controller/lbservice.go) selects.
use application_controller.Common.{
  String, true, Option, none, some, List, [], ◌∷◌, GoMap, lookup, insert, lookup-insert, string_eq,
  In, ◌≡◌, refl, sym, ◌∙◌, ap, subst, arith, ◌⊎◌, inl, inr, or_else,
}
use application_controller.Errors.{Error, is, err_unknown_lb_service_port, Result, ok, err, ◌>>=◌}
use application_controller.Kube.{ContainerPort, ServicePort, Kind, Object}
use application_controller.Api.{Application, LoadBalancer}
use application_controller.Controller.Ports.{reconcile_service_ports}
use application_controller.Controller.Ports.Lookup.{find_last}
use application_controller.Controller.Mutators.Services.{
  service_port, app_ports_by_name, unknown_port, lb_ports, with_ports, lb_service_mutate,
}

-- The last of the Application's ports with the name.
abbrev pub port_named : String → List ContainerPort → Option ContainerPort
port_named n ps = find_last (λ (p : ContainerPort). p.name) n ps

lookup-app_ports_by_name :
    (n : String) (m : GoMap String ContainerPort) (ps : List ContainerPort)
    → lookup n (app_ports_by_name m ps) ≡ or_else (port_named n ps) (lookup n m)
unfolding app_ports_by_name
lookup-app_ports_by_name n m [] = refl
lookup-app_ports_by_name n m (p ∷ ps) =
    ground (arith, lookup-app_ports_by_name n (insert p.name p m) ps, lookup-insert p.name n p m)

port_of_name :
    (n : String) (ps : List ContainerPort) → lookup n (app_ports_by_name [] ps) ≡ port_named n ps
unfolding lookup
port_of_name n ps = ground (arith, lookup-app_ports_by_name n [] ps)

-- One Service port for each name, in their order, made of the Application's port of that name.
abbrev pub Selected : List ContainerPort → List String → List ServicePort → Type 0
Selected ps [] [] = Unit
Selected ps [] (_ ∷ _) = ⊥
Selected ps (_ ∷ _) [] = ⊥
Selected ps (n ∷ ns) (q ∷ qs) =
    (p : ContainerPort) × (port_named n ps ≡ some p) × (q ≡ service_port p) × Selected ps ns qs

-- The outcome of one name, and of the names after it.
abbrev taken : String → Option ContainerPort → Result (List ServicePort) → Result (List ServicePort)
taken n found rest = elim found [
  | none ↦ err (unknown_port n)
  | some p ↦ (rest >>= λ ports. ok (service_port p ∷ ports))
]

taken-ok :
    (n : String) (found : Option ContainerPort) (rest : Result (List ServicePort))
    (ports : List ServicePort)
    → taken n found rest ≡ ok ports
    → (p : ContainerPort) × (qs : List ServicePort) × (found ≡ some p)
      × (rest ≡ ok qs)
      × (ports ≡ service_port p ∷ qs)
taken-ok n none rest ports h = ground arith
taken-ok n (some p) (err e) ports h = ground arith
taken-ok n (some p) (ok qs) ports h = (p, qs, refl, refl, ground arith)

pub lb_ports-Selected :
    (ps : List ContainerPort) (ns : List String) (ports : List ServicePort)
    → lb_ports (app_ports_by_name [] ps) ns ≡ ok ports
    → Selected ps ns ports
unfolding lb_ports
lb_ports-Selected ps [] [] h = tt
lb_ports-Selected ps [] (q ∷ qs) h = ground arith
lb_ports-Selected ps (n ∷ ns) ports h =
    let (p, qs, found, rest, same) = taken-ok n (lookup n (app_ports_by_name [] ps)) _ ports h in
    subst (Selected ps (n ∷ ns)) (sym same)
      (p, sym (port_of_name n ps) ∙ found, refl, lb_ports-Selected ps ns qs rest)

-- Why a list of names is refused: one of them is that of no port.
pub record IsUnknown (ps : List ContainerPort) (ns : List String) (e : Error) : Type 0 where
  pub name : String
  pub listed : In name ns
  pub unknown : port_named name ps ≡ none
  pub error : is e err_unknown_lb_service_port ≡ true

taken-err :
    (n : String) (found : Option ContainerPort) (rest : Result (List ServicePort)) (e : Error)
    → taken n found rest ≡ err e
    → ((found ≡ none) × (unknown_port n ≡ e)) ⊎ (rest ≡ err e)
taken-err n none rest e h = inl (refl, ground arith)
taken-err n (some p) (err e') e h = inr h
taken-err n (some p) (ok qs) e h = ground arith

unknown_port-is : (n : String) → is (unknown_port n) err_unknown_lb_service_port ≡ true
unfolding is unknown_port
unknown_port-is n = refl

lb_ports-IsUnknown :
    (ps : List ContainerPort) (ns : List String) (e : Error)
    → lb_ports (app_ports_by_name [] ps) ns ≡ err e
    → IsUnknown ps ns e
unfolding lb_ports
lb_ports-IsUnknown ps [] e h = ground arith
lb_ports-IsUnknown ps (n ∷ ns) e h = elim (taken-err n (lookup n (app_ports_by_name [] ps)) _ e h) [
  | inl (absent, same) ↦ record {
    name = n;
    listed = inl refl;
    unknown = sym (port_of_name n ps) ∙ absent;
    error = ap (λ x. is x err_unknown_lb_service_port) (sym same) ∙ unknown_port-is n;
  }
  | inr rest ↦
      let u = lb_ports-IsUnknown ps ns e rest in
      record { name = u.name; listed = inr u.listed; unknown = u.unknown; error = u.error }
]

module _ (app : Application) (lb : LoadBalancer) (svc : Object Kind.service) where
  -- The ports are those of the names, or one of the names is unknown.
  abbrev pub IsSelection : Result (Object Kind.service) → Type 0
  IsSelection (ok r) =
      (ports : List ServicePort) × Selected app.spec.ports lb.port_names ports
      × (r.spec.ports ≡ reconcile_service_ports svc.spec.ports ports)
      × (r.spec.type ≡ "LoadBalancer")
  IsSelection (err e) = IsUnknown app.spec.ports lb.port_names e

  selection :
      (collected : Result (List ServicePort))
      → lb_ports (app_ports_by_name [] app.spec.ports) lb.port_names ≡ collected
      → IsSelection (collected >>= λ ports. ok (with_ports app lb svc ports))
  unfolding with_ports
  selection (ok ports) h =
      (ports, lb_ports-Selected app.spec.ports lb.port_names ports h, refl, refl)
  selection (err e) h = lb_ports-IsUnknown app.spec.ports lb.port_names e h

  -- If the mutator of the load balancer Service succeeds, then each of the port names in the
  -- loadBalancer section is that of a port of the Application, and the ports of the Service are
  -- the reconciliation of its old ones with one port for each name, in their order, made of the
  -- last of the Application's ports of that name. If it fails, then one of the names is that of no
  -- port of the Application, and the error is ErrUnknownLBServicePort.
  pub lb_service_mutate-IsSelection : IsSelection (lb_service_mutate app lb svc)
  unfolding lb_service_mutate
  lb_service_mutate-IsSelection =
      selection (lb_ports (app_ports_by_name [] app.spec.ports) lb.port_names) refl
