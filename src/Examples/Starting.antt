-- ===== src/Examples/Starting.antt =====
-- A command line and the surroundings of main, and what comes of them.
use application_controller.Common.{
  String, Bool, true, false, Option, none, List, [], ◌∷◌, ◌≡◌, refl, ◌↔◌, ◌==◌, string_eq,
  if◌then◌else◌,
}
use application_controller.Errors.{Error, foreign, ok, err}
use application_controller.Kube.{NamespacedName, Kind}
use application_controller.Discovery.{
  ApiResourceList, list_resources, is_prometheus_operator_installed, is_traefik_installed,
}
use application_controller.Discovery.Served.{IsServed}
use application_controller.Flags.Names.{with_slash}
use application_controller.Images.ImageRef.{ImageRef}
use application_controller.Images.Registry.{Remote, SimpleRegistryClient}
use application_controller.Images.Wiring.{
  Surroundings, simple, new_cron_image_watcher_with_defaults,
}
use application_controller.Images.Scheduler.{GocronLibrary, new_cron_scheduler}
use application_controller.Images.Scheduler.Failures.{Runs}
use application_controller.Images.Watcher.{tick, run, new_cron_image_watcher}
use application_controller.Controller.Setup.{
  role_binding_index, cluster_role_binding_index, cron_job_index, watches, setup_with_manager,
}
use application_controller.Controller.Setup.Watches.{is_watched, expected}
use application_controller.Main.Options.{Zap, Flags, defaults, parsed, parse}
use application_controller.Main.Options.RoundTrip.{command_line, parse-command_line}
use application_controller.Main.{RunningManager, World, Program, runs, main, or_exit}
use application_controller.Main.Start.{main-is_watched}
use application_controller.Main.DefaultSchedule.{watching, main-Runs}
use application_controller.Main.Keychain.{main-opts}
use application_controller.Images.Registry.{opts}
use application_controller.Main.Options.{Flags, parsed, parse}
use application_controller.Examples.Cluster.{web, test_library}
use application_controller.Examples.Discovering.{some_cluster}

abbrev no_zap : Zap
no_zap = record {
  Options = Unit;
  initial = tt;
  defines = λ name. false;
  is_bool_flag = λ name. false;
  set = λ name value o. (ok tt, o);
}

-- cron.ParseStandard that accepts everything.
abbrev any_schedule : String → Option Error
any_schedule s = none

abbrev some_flags : Flags (Unit {0})
some_flags = record (defaults tt) {
  enable_leader_election = true;
  image_pull_secrets = "registry-login" ∷ "other-login" ∷ [];
  traefik_middlewares = record { namespace = "traefik"; name = "compress" } ∷ [];
  traefik_auth_service_name = record { namespace = "auth"; name = "proxy" };
  default_update_schedule = "@every 5m";
}

parse-command_line_example :
    parse any_schedule no_zap
      (command_line any_schedule no_zap with_slash (λ n. refl) (λ name listed. refl) some_flags)
    ≡ parsed some_flags
parse-command_line_example =
    parse-command_line any_schedule no_zap with_slash (λ n. refl) (λ name listed. refl) some_flags
      refl refl (refl, tt) refl

abbrev some_remote : Remote
some_remote = record {
  Reference = String;
  Repository = String;
  Option = Unit;
  parse_reference = λ s. ok s;
  context = λ s. s;
  registry_str = λ s. "registry";
  repository_str = λ s. s;
  with_context = tt;
  list = λ s opts. ok ("1.0.0" ∷ []);
  get = λ s opts. ok "sha256:1";
}

abbrev some_client : SimpleRegistryClient some_remote
some_client = record { extra_opts = [] }

abbrev some_ref : ImageRef
some_ref = record { repository = "example/web"; tag = ""; digest = "" }

abbrev no_name : NamespacedName
no_name = record { namespace = ""; name = "" }

abbrev some_surroundings : Surroundings some_remote
some_surroundings = record {
  Keychain = Unit;
  namespace_file = ok "controllers";
  new_in_cluster = λ namespace secrets. ok tt;
  with_auth_from_keychain = λ kc. tt;
}

abbrev some_manager : RunningManager
some_manager = record {
  manager = record {
    index_field = λ before index. ok tt;
    application_kind = record { group = "yarotsky.me"; kind = "Application" };
    complete = λ watches. ok tt;
  };
  add_healthz_check = ok tt;
  add_readyz_check = ok tt;
  start = ok tt;
}

abbrev some_world : World
some_world = record {
  parse_standard = any_schedule;
  zap = no_zap;
  kubernetes = some_cluster;
  config_or_die = ok tt;
  new_manager = λ options. ok some_manager;
  library = test_library;
  remote = some_remote;
  around = some_surroundings;
}

abbrev some_args : List String
some_args = "--image-pull-secret" ∷ "registry-login" ∷ "-leader-elect=true" ∷ []

abbrev some_program : Program some_remote
some_program = record {
  watcher = new_cron_image_watcher (new_cron_scheduler "*/5 * * * * *");
  finder = record { registry_client = simple (record { extra_opts = [] }) };
  ingress_routes = record {
    default_traefik_middlewares = [];
    cname_target = "";
    auth_config = record {
      auth_path_prefix = "/oauth2/";
      auth_service_name = record { namespace = ""; name = "" };
      auth_service_port_name = "http";
      auth_middleware_name = record { namespace = ""; name = "" };
    };
  };
  supports_prometheus = true;
  supports_traefik = false;
  registered = record {
    indexes =
        role_binding_index some_manager.manager test_library
        ∷ cluster_role_binding_index some_manager.manager test_library
        ∷ cron_job_index some_manager.manager test_library
        ∷ [];
    watches = watches some_manager.manager test_library true false;
  };
}

started : main some_world some_args ≡ runs some_program 0
unfolding main or_exit is_prometheus_operator_installed list_resources is_traefik_installed
    new_cron_image_watcher_with_defaults setup_with_manager
started = refl

main-is_watched_example :
    (lists : List ApiResourceList) × (o : Flags Unit) × (mgr : RunningManager) × (list_resources
        some_cluster none
      ≡ ok lists)
    × (parse any_schedule no_zap some_args ≡ parsed o)
    × (ok some_manager ≡ ok mgr)
    × ((k : Kind)
        → is_watched mgr.manager.application_kind some_program.registered.watches k
          ≡ expected true false k)
    × ((◌≡◌ {A = Bool} true true) ↔ IsServed "monitoring.coreos.com/v1" "PodMonitor" lists)
    × ((◌≡◌ {A = Bool} false true) ↔ IsServed "traefik.io/v1alpha1" "IngressRoute" lists)
main-is_watched_example = main-is_watched some_world some_args some_program 0 started

main-opts_example :
    (c : SimpleRegistryClient some_remote) × (some_program.finder.registry_client ≡ simple c)
    × (opts some_remote c ≡ tt ∷ [])
main-opts_example = main-opts some_world some_args some_program 0 started

-- gocron that refuses schedules of six fields.
abbrev five_fields : GocronLibrary
five_fields = record {
  cron_do = λ calls schedule.
      if schedule == "*/5 * * * * *" then err (foreign "" "expected 5 fields") else ok 0;
  name_string = with_slash;
}

read_flags :
    parse any_schedule no_zap some_args
    ≡ parsed (record (defaults tt) {
      enable_leader_election = true;
      image_pull_secrets = "registry-login" ∷ [];
    })
unfolding parse
read_flags = refl

main-Runs_example :
    ¬ Runs five_fields web
      (run
        (λ spec. spec.repository)
        five_fields
        (λ jobs. jobs)
        (watching some_program.watcher)
        (tick (ok (web ∷ [])) ∷ [])).scheduler
main-Runs_example =
    main-Runs some_world five_fields (λ calls job accepted. cc) some_args some_program 0
      (record (defaults tt) {
        enable_leader_election = true;
        image_pull_secrets = "registry-login" ∷ [];
      })
      started read_flags refl (λ spec. spec.repository) (λ jobs. jobs) (tick (ok (web ∷ [])) ∷ [])
      web refl
