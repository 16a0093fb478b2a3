-- ===== src/Examples/Colliding.antt =====
-- An example of the theorem on Applications whose Services have the same name.
use application_controller.Common.{[], ◌∷◌, ◌≡◌, refl, concat}
use application_controller.Errors.{Result, ok, err}
use application_controller.Kube.{Kind, Object}
use application_controller.Api.{Application}
use application_controller.Controller.Names.{service_name, lb_service_name}
use application_controller.Controller.State.{get, Client}
use application_controller.Controller.State.Steps.{then_call}
use application_controller.Controller.Resource.{refusal, set_owner}
use application_controller.Controller.Reconciler.{Reconciler}
use application_controller.Controller.Reconciler.Zero.{zero_spec}
use application_controller.Controller.Reconciler.Owned.{reconcile_service}
use application_controller.Controller.Reconciler.Owned.Collisions.{reconcile_service_collides}
use application_controller.Examples.Objects.{test_library-IsLawful}
use application_controller.Examples.Cluster.{
  no_meta, reference_to, web, test_library, cluster_with, reconciler_with, not_found, fresh,
}

abbrev second_web : Application
second_web = record web { name = "web-loadbalancer" }

abbrev new_service : Object Kind.service
new_service = record {
  meta = record no_meta { name = "web-loadbalancer"; namespace = "prod" };
  spec = zero_spec Kind.service;
}

abbrev web_lb_service : Object Kind.service
web_lb_service = record new_service { meta = reference_to web new_service.meta }

abbrev services_only : (k : Kind) → Result (Object k)
services_only Kind.service = ok web_lb_service
services_only _ = err not_found

abbrev cluster : Client
cluster = let c = cluster_with second_web in record c { get = λ h k name. services_only k }

abbrev live : Reconciler (Unit {0})
live = reconciler_with cluster

named : second_web.name ≡ concat (web.name ∷ "-loadbalancer" ∷ [])
unfolding concat
named = refl

owned :
    set_owner test_library web (lb_service_name web) Kind.service new_service ≡ ok web_lb_service
unfolding set_owner lb_service_name
owned = refl

reconcile_service_collides_example :
    (lb_service_name web ≡ service_name second_web)
    × (reconcile_service live second_web fresh ≡ (
      err (refusal "kind" (test_library.name_string (service_name second_web))),
      then_call (get Kind.service (service_name second_web)) fresh,
    ))
reconcile_service_collides_example =
    reconcile_service_collides live web second_web "kind" new_service web_lb_service fresh
      test_library-IsLawful refl refl refl refl named owned refl
