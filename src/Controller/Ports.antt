-- ===== src/Controller/Ports.antt =====
-- reconcileContainerPorts (internal/controller/deployment.go) and reconcileServicePorts
-- (internal/controller/service.go): the same loops over two types of port. `name_of` reads a port's
-- name, and `adopt got want` is the existing port `got` with the fields that it takes from `want`.
pub mod Lookup
pub mod Count
pub mod Settled
use application_controller.Common.{
  String, Bool, true, false, Option, none, some, List, [], ◌∷◌, ◌++◌, GoMap, lookup, insert,
  string_eq,
}
use application_controller.Kube.{ContainerPort, ServicePort}

module _ {P : Type 0} (name_of : P → String) (adopt : P → P → P) where
  -- for _, p := range desired { desiredPortsByName[p.Name] = p }
  pub by_name : GoMap String P → List P → GoMap String P
  by_name m [] = m
  by_name m (p ∷ ps) = by_name (insert (name_of p) p m) ps

  -- if want, ok := desiredPortsByName[got.Name]; ok { … }, on the result so far and the names seen
  adopt_one : P → Option P → List P × GoMap String Bool → List P × GoMap String Bool
  adopt_one got none (result, seen) = (result, seen)
  adopt_one got (some want) (result, seen) =
      (result ++ adopt got want ∷ [], insert (name_of got) true seen)

  -- The loop over the existing ports.
  pub adopt_actual :
      GoMap String P → List P → List P × GoMap String Bool → List P × GoMap String Bool
  unfolding adopt_one
  adopt_actual desired [] acc = acc
  adopt_actual desired (got ∷ actual) acc =
      adopt_actual desired actual (adopt_one got (lookup (name_of got) desired) acc)

  -- if seen[want.Name] { continue }; result = append(result, want)
  append_new : GoMap String Bool → List P → List P → List P
  append_new seen [] result = result
  append_new seen (want ∷ desired) result =
      append_new seen desired
        (elim (lookup (name_of want) seen) [ some true ↦ result | _ ↦ result ++ want ∷ [] ])

  unfoldable pub reconcile_ports : List P → List P → List P
  unfolding by_name adopt_actual append_new
  reconcile_ports [] desired = desired
  reconcile_ports (got ∷ actual) desired =
      let (result, seen) = adopt_actual (by_name [] desired) (got ∷ actual) ([], []) in
      append_new seen desired result

abbrev pub adopt_container_port : ContainerPort → ContainerPort → ContainerPort
adopt_container_port got want = record got {
  container_port = want.container_port;
  protocol = want.protocol;
}

unfoldable pub reconcile_container_ports :
    List ContainerPort → List ContainerPort → List ContainerPort
unfolding reconcile_ports
reconcile_container_ports = reconcile_ports (λ p. p.name) adopt_container_port

abbrev pub adopt_service_port : ServicePort → ServicePort → ServicePort
adopt_service_port got want = record got {
  target_port = want.target_port;
  protocol = want.protocol;
}

unfoldable pub reconcile_service_ports : List ServicePort → List ServicePort → List ServicePort
unfolding reconcile_ports
reconcile_service_ports = reconcile_ports (λ p. p.name) adopt_service_port
