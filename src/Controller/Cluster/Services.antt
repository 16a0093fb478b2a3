-- ===== src/Controller/Cluster/Services.antt =====
-- reconcileService of internal/controller a second time.
use application_controller.Common.{string_eq, ◌≡◌}
use application_controller.Errors.{ok}
use application_controller.Kube.{ObjectMeta, Kind, Object}
use application_controller.Api.{Application}
use application_controller.Controller.Names.{service_name, selector_labels}
use application_controller.Controller.Ports.{reconcile_service_ports}
use application_controller.Controller.Mutators.Services.{service_ports}
use application_controller.Controller.State.{Library, State}
use application_controller.Controller.Resource.{set_name}
use application_controller.Controller.Reconciler.{Reconciler}
use application_controller.Controller.Reconciler.Zero.{zero_object}
use application_controller.Controller.Cluster.{Objects, stored, or_given, Serves}

-- What SetControllerReference promises besides: the names are kept, and to set the reference again
-- changes nothing.
pub record IsSteady (library : Library) (app : Application) : Type 0 where
  pub keeps_namespace :
      (meta m : ObjectMeta)
      → library.set_controller_reference app meta ≡ ok m
      → m.namespace ≡ meta.namespace
  pub keeps_name :
      (meta m : ObjectMeta) → library.set_controller_reference app meta ≡ ok m → m.name ≡ meta.name
  pub settles :
      (meta m : ObjectMeta)
      → library.set_controller_reference app meta ≡ ok m
      → library.set_controller_reference app m ≡ ok m

-- The Service that reconcileService makes of the given one.
abbrev pub settled_service : Application → Object Kind.service → ObjectMeta → Object Kind.service
settled_service app svc m =
    let spec = svc.spec in
    record {
      meta = m;
      spec = record spec {
        ports = reconcile_service_ports spec.ports (service_ports app.spec.ports);
        selector = selector_labels app;
      };
    }

module _ {F : Type 0} (r : Reconciler F) (initial : Objects) (serves : Serves r.client initial)
    (app : Application) where
  -- What reconcileService starts from: the Service that is there, or a new one of the name.
  abbrev pub found_service : State F → Object Kind.service
  found_service s =
      or_given Kind.service (set_name (service_name app) Kind.service (zero_object Kind.service))
        (stored initial s.history Kind.service (service_name app))
