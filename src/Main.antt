-- ===== src/Main.antt =====
-- cmd/main.go: the command line, and the start of the program. The manager of controller-runtime is
-- an interface; log lines are left out.
pub mod Options
pub mod Start
pub mod DefaultSchedule
pub mod Keychain
use application_controller.Common.{String, ℕ, Bool, Option, none, List, [], ◌∷◌, if◌then◌else◌}
use application_controller.Errors.{Error, Result, ok, err}
use application_controller.Kube.{NamespacedName}
use application_controller.Discovery.{
  KubernetesClient, is_prometheus_operator_installed, is_traefik_installed,
}
use application_controller.Images.Registry.{Remote}
use application_controller.Images.Watcher.{CronImageWatcher}
use application_controller.Images.Wiring.{
  Surroundings, Config, new_cron_image_watcher_with_defaults,
}
use application_controller.Controller.State.{Library}
use application_controller.Controller.Mutators.IngressRoutes.{IngressRouteMutator}
use application_controller.Controller.Setup.{Manager, Registered, setup_with_manager}
use application_controller.Main.Options.{Zap, Flags, Parsed, parsed, invalid, help, parse}

-- ctrl.Options, without the scheme
pub record ManagerOptions : Type 0 where
  pub metrics_bind_address : String
  pub health_probe_bind_address : String
  pub leader_election : Bool
  pub leader_election_id : String

-- A manager: its part in SetupWithManager, AddHealthzCheck, AddReadyzCheck, and what Start returns.
pub record RunningManager : Type 0 where
  pub manager : Manager
  pub add_healthz_check : Result (Unit {0})
  pub add_readyz_check : Result (Unit {0})
  pub start : Result (Unit {0})

-- What main takes from libraries and from its surroundings.
pub record World : Type 1 where
  pub parse_standard : String → Option Error
  pub zap : Zap
  pub kubernetes : KubernetesClient
  pub config_or_die : Result (Unit {0})
  pub new_manager : ManagerOptions → Result RunningManager
  pub library : Library
  pub remote : Remote
  pub around : Surroundings remote

-- What has been set up when the goroutines start: the image watcher with its image finder, and the
-- fields that main gives the ApplicationReconciler, those for IngressRoutes as the mutator has them.
pub record Program (remote : Remote) : Type 0 where
  pub watcher : CronImageWatcher
  pub finder : Config remote
  pub ingress_routes : IngressRouteMutator
  pub supports_prometheus : Bool
  pub supports_traefik : Bool
  pub registered : Registered

-- main exits with a code before anything has been started; or it starts the image watcher, the
-- webhook server and the manager, and exits with a code when the manager is done.
pub data Run (remote : Remote) : Type 0 where
  exits : ℕ → Run remote
  runs : Program remote → ℕ → Run remote

module _ (world : World) where
  open world use {
    parse_standard, zap, kubernetes, config_or_die, new_manager, library, remote, around,
  }

  -- if err != nil { setupLog.Error(…); os.Exit(1) }
  unfoldable pub or_exit : {A : Type 0} → Result A → (A → Run remote) → Run remote
  or_exit (ok a) rest = rest a
  or_exit (err e) rest = exits 1

  exit_code : Result (Unit {0}) → ℕ
  exit_code (ok _) = 0
  exit_code (err e) = 1

  unfoldable pub manager_options : Flags zap.Options → ManagerOptions
  manager_options o = record {
    metrics_bind_address = o.metrics_addr;
    health_probe_bind_address = o.probe_addr;
    leader_election = o.enable_leader_election;
    leader_election_id = "32c0c598.yarotsky.me";
  }

  unfoldable pub ingress_routes_of : Flags zap.Options → IngressRouteMutator
  ingress_routes_of o = record {
    default_traefik_middlewares = o.traefik_middlewares;
    cname_target = o.traefik_cname_target;
    auth_config = record {
      auth_path_prefix = o.traefik_auth_path_prefix;
      auth_service_name = o.traefik_auth_service_name;
      auth_service_port_name = o.traefik_auth_service_port_name;
      auth_middleware_name = o.traefik_auth_middleware_name;
    };
  }

  -- From NewCronImageWatcherWithDefaults on.
  with_manager : Flags zap.Options → Bool → Bool → RunningManager → Run remote
  unfolding exit_code ingress_routes_of
  with_manager o has_prometheus has_traefik mgr =
      or_exit
        (new_cron_image_watcher_with_defaults remote around o.default_update_schedule
          o.image_pull_secrets)
        λ (watcher, finder).
          or_exit (setup_with_manager mgr.manager library has_prometheus has_traefik) λ registered.
            or_exit mgr.add_healthz_check λ _. or_exit mgr.add_readyz_check λ _.
              runs
                (record {
                  watcher = watcher;
                  finder = finder;
                  ingress_routes = ingress_routes_of o;
                  supports_prometheus = has_prometheus;
                  supports_traefik = has_traefik;
                  registered = registered;
                })
                (exit_code mgr.start)

  -- From the first discovery on.
  with_flags : Flags zap.Options → Run remote
  unfolding with_manager manager_options
  with_flags o = or_exit (is_prometheus_operator_installed kubernetes none) λ has_prometheus.
      or_exit (is_traefik_installed kubernetes none) λ has_traefik. or_exit config_or_die λ _.
        or_exit (new_manager (manager_options o))
          λ mgr. with_manager o has_prometheus has_traefik mgr

  after_parse : Parsed zap.Options → Run remote
  unfolding with_flags
  after_parse (parsed o) = with_flags o
  after_parse (invalid message) = exits 2
  after_parse help = exits 0

  unfoldable pub main : List String → Run remote
  unfolding after_parse parse
  main args = after_parse (parse parse_standard zap args)
