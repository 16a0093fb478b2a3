-- ===== src/Main/Options/RoundTrip.antt =====
-- Every choice of values for the flags of main can be written as a command line.
use application_controller.Common.{
  String, Bool, true, false, Option, none, some, List, [], ◌∷◌, ◌++◌, append-nil, append_assoc, ◌≡◌,
  refl, sym, ◌∙◌, ap, elem, All, arith, ◌==◌, string_eq,
}
use application_controller.Errors.{Error, Result, ok}
use application_controller.Kube.{NamespacedName}
use application_controller.Flags.{checked}
use application_controller.Flags.Names.{has_slash, with_slash, set_name-name_string}
use application_controller.Main.Options.{
  Zap, Flags, defaults, parsed, flag, argument, set_flag, is_bool_flag, is_defined, after_set,
  parse_loop, parse,
}

abbrev pub flag_names : List String
flag_names =
    "metrics-bind-address" ∷ "health-probe-bind-address" ∷ "image-pull-secret"
    ∷ "traefik-default-middleware" ∷ "traefik-auth-path-prefix" ∷ "traefik-auth-service-name"
    ∷ "traefik-auth-service-port-name" ∷ "traefik-auth-middleware-name" ∷ "traefik-cname-target"
    ∷ "default-update-schedule" ∷ []

module _ (parse_standard : String → Option Error) (zap : Zap)
    (name_string : NamespacedName → String)
    (documented : (n : NamespacedName) → name_string n ≡ with_slash n)
    (apart : (name : String) → elem name flag_names ≡ true → zap.defines name ≡ false) where
  -- An argument that names a flag, and its value as the next argument.
  one_flag :
      (arg name value : String) (args : List String) (o o' : Flags zap.Options)
      → argument arg ≡ flag name none
      → is_bool_flag parse_standard zap name ≡ false
      → is_defined parse_standard zap name o ≡ true
      → set_flag parse_standard zap name value o ≡ some (ok tt, o')
      → parse_loop parse_standard zap (arg ∷ value ∷ args) none o
        ≡ parse_loop parse_standard zap args none o'
  unfolding parse_loop after_set
  one_flag arg name value args o o' reads plain defined set =
      rw (reads, parse_loop) (rw plain (rw defined (rw (set, after_set))))

  plain_flag :
      (name : String)
      → elem name flag_names ≡ true
      → (name == "leader-elect") ≡ false
      → is_bool_flag parse_standard zap name ≡ false
  unfolding is_bool_flag
  plain_flag name listed other = ground (arith, other, apart name listed)

  secret_args : List String → List String → List String
  secret_args [] rest = rest
  secret_args (s ∷ secrets) rest = "--image-pull-secret" ∷ s ∷ secret_args secrets rest

  parse_loop-secret_args :
      (secrets rest : List String) (o : Flags zap.Options)
      → parse_loop parse_standard zap (secret_args secrets rest) none o
        ≡ parse_loop parse_standard zap rest none
            (record o { image_pull_secrets = o.image_pull_secrets ++ secrets })
  unfolding secret_args argument is_defined set_flag elem
  parse_loop-secret_args [] rest o =
      ap (λ l. parse_loop parse_standard zap rest none (record o { image_pull_secrets = l }))
        (sym (append-nil o.image_pull_secrets))
  parse_loop-secret_args (s ∷ secrets) rest o =
      let set = record o { image_pull_secrets = o.image_pull_secrets ++ s ∷ [] } in
      one_flag "--image-pull-secret" "image-pull-secret" s (secret_args secrets rest) o set refl
        (plain_flag "image-pull-secret" refl refl) refl refl
      ∙ parse_loop-secret_args secrets rest set
      ∙ ap (λ l. parse_loop parse_standard zap rest none (record o { image_pull_secrets = l }))
          (append_assoc o.image_pull_secrets (s ∷ []) secrets)

  middleware_args : List NamespacedName → List String → List String
  middleware_args [] rest = rest
  middleware_args (n ∷ names) rest =
      "--traefik-default-middleware" ∷ name_string n ∷ middleware_args names rest

  parse_loop-middleware_args :
      (names : List NamespacedName) (rest : List String) (o : Flags zap.Options)
      → All (λ n. has_slash n.namespace ≡ false) names
      → parse_loop parse_standard zap (middleware_args names rest) none o
        ≡ parse_loop parse_standard zap rest none
            (record o { traefik_middlewares = o.traefik_middlewares ++ names })
  unfolding middleware_args argument is_defined set_flag elem
  parse_loop-middleware_args [] rest o lack =
      ap (λ l. parse_loop parse_standard zap rest none (record o { traefik_middlewares = l }))
        (sym (append-nil o.traefik_middlewares))
  parse_loop-middleware_args (n ∷ names) rest o (lacks, lack) =
      let set = record o { traefik_middlewares = o.traefik_middlewares ++ n ∷ [] } in
      let appended =
        (set_name-name_string name_string documented n n o.traefik_middlewares lacks).1 in
      one_flag "--traefik-default-middleware" "traefik-default-middleware" (name_string n)
        (middleware_args names rest) o set refl (plain_flag "traefik-default-middleware" refl refl)
        refl
        (ap
          (λ (p : Result (Unit {0}) × List NamespacedName).
            some (p.0, record o { traefik_middlewares = p.1 }))
          appended)
      ∙ parse_loop-middleware_args names rest set lack
      ∙ ap (λ l. parse_loop parse_standard zap rest none (record o { traefik_middlewares = l }))
          (append_assoc o.traefik_middlewares (n ∷ []) names)

  leader_args : Bool → List String → List String
  leader_args true rest = "--leader-elect" ∷ rest
  leader_args false rest = rest

  list_args : Flags zap.Options → List String
  unfolding leader_args secret_args middleware_args
  list_args o =
      leader_args o.enable_leader_election
        (secret_args o.image_pull_secrets (middleware_args o.traefik_middlewares []))

  schedule_args : Flags zap.Options → List String
  unfolding list_args
  schedule_args o =
      "--traefik-cname-target"
      ∷ o.traefik_cname_target
      ∷ "--default-update-schedule"
      ∷ o.default_update_schedule
      ∷ list_args o

  auth_args : Flags zap.Options → List String
  unfolding schedule_args
  auth_args o =
      "--traefik-auth-service-name"
      ∷ name_string o.traefik_auth_service_name
      ∷ "--traefik-auth-service-port-name"
      ∷ o.traefik_auth_service_port_name
      ∷ "--traefik-auth-middleware-name"
      ∷ name_string o.traefik_auth_middleware_name
      ∷ schedule_args o

  -- A command line that sets every flag but those of zap.
  pub command_line : Flags zap.Options → List String
  unfolding auth_args
  command_line o =
      "--metrics-bind-address"
      ∷ o.metrics_addr
      ∷ "--health-probe-bind-address"
      ∷ o.probe_addr
      ∷ "--traefik-auth-path-prefix"
      ∷ o.traefik_auth_path_prefix
      ∷ auth_args o

  parse_loop-leader_args :
      (on : Bool) (rest : List String) (o : Flags zap.Options)
      → o.enable_leader_election ≡ false
      → parse_loop parse_standard zap (leader_args on rest) none o
        ≡ parse_loop parse_standard zap rest none (record o { enable_leader_election = on })
  unfolding leader_args parse_loop argument is_bool_flag set_flag after_set
  parse_loop-leader_args true rest o off = refl
  parse_loop-leader_args false rest o off =
      ap (λ b. parse_loop parse_standard zap rest none (record o { enable_leader_election = b }))
        off

  set_schedule :
      (schedule : String) (o : Flags zap.Options)
      → parse_standard schedule ≡ none
      → set_flag parse_standard zap "default-update-schedule" schedule o
        ≡ some (ok tt, record o { default_update_schedule = schedule })
  unfolding set_flag checked
  set_schedule schedule o accepted =
      ap
        (λ e.
          let p = checked parse_standard schedule o.default_update_schedule e in
          some (p.0, record o { default_update_schedule = p.1 }))
        accepted

  -- A flag of `flag_names` that is no Boolean one.
  text_flag :
      (arg name value : String) (args : List String) (o o' : Flags zap.Options)
      → elem name flag_names ≡ true
      → (name == "leader-elect") ≡ false
      → argument arg ≡ flag name none
      → is_defined parse_standard zap name o ≡ true
      → set_flag parse_standard zap name value o ≡ some (ok tt, o')
      → parse_loop parse_standard zap (arg ∷ value ∷ args) none o
        ≡ parse_loop parse_standard zap args none o'
  text_flag arg name value args o o' listed other reads defined set =
      one_flag arg name value args o o' reads (plain_flag name listed other) defined set

  parse_loop-list_args :
      (o set : Flags zap.Options)
      → All (λ n. has_slash n.namespace ≡ false) o.traefik_middlewares
      → set.enable_leader_election ≡ false
      → set.image_pull_secrets ≡ []
      → set.traefik_middlewares ≡ []
      → parse_loop parse_standard zap (list_args o) none set
        ≡ parsed (record set {
          enable_leader_election = o.enable_leader_election;
          image_pull_secrets = o.image_pull_secrets;
          traefik_middlewares = o.traefik_middlewares;
        })
  unfolding list_args parse_loop
  parse_loop-list_args o set middlewares off no_secrets no_middlewares =
      let elected = record set { enable_leader_election = o.enable_leader_election } in
      let with_secrets = record elected {
        image_pull_secrets = set.image_pull_secrets ++ o.image_pull_secrets;
      } in
      parse_loop-leader_args o.enable_leader_election
        (secret_args o.image_pull_secrets (middleware_args o.traefik_middlewares [])) set off
      ∙ parse_loop-secret_args o.image_pull_secrets (middleware_args o.traefik_middlewares [])
          elected
      ∙ parse_loop-middleware_args o.traefik_middlewares [] with_secrets middlewares
      ∙ ap
          (λ (p : List String × List NamespacedName). parsed (record elected {
            image_pull_secrets = p.0 ++ o.image_pull_secrets;
            traefik_middlewares = p.1 ++ o.traefik_middlewares;
          }))
          (λ i. (no_secrets i, no_middlewares i))

  parse_loop-schedule_args :
      (o set : Flags zap.Options)
      → parse_standard o.default_update_schedule ≡ none
      → parse_loop parse_standard zap (schedule_args o) none set
        ≡ parse_loop parse_standard zap (list_args o) none (record set {
          traefik_cname_target = o.traefik_cname_target;
          default_update_schedule = o.default_update_schedule;
        })
  unfolding schedule_args argument is_defined set_flag elem
  parse_loop-schedule_args o set schedule =
      let named = record set { traefik_cname_target = o.traefik_cname_target } in
      text_flag "--traefik-cname-target" "traefik-cname-target" o.traefik_cname_target
        ("--default-update-schedule" ∷ o.default_update_schedule ∷ list_args o) set named refl refl
        refl refl refl
      ∙ text_flag "--default-update-schedule" "default-update-schedule" o.default_update_schedule
          (list_args o) named (record named { default_update_schedule = o.default_update_schedule })
          refl refl refl refl (set_schedule o.default_update_schedule named schedule)

  parse_loop-auth_args :
      (o set : Flags zap.Options)
      → has_slash o.traefik_auth_service_name.namespace ≡ false
      → has_slash o.traefik_auth_middleware_name.namespace ≡ false
      → parse_loop parse_standard zap (auth_args o) none set
        ≡ parse_loop parse_standard zap (schedule_args o) none (record set {
          traefik_auth_service_name = o.traefik_auth_service_name;
          traefik_auth_service_port_name = o.traefik_auth_service_port_name;
          traefik_auth_middleware_name = o.traefik_auth_middleware_name;
        })
  unfolding auth_args argument is_defined set_flag elem
  parse_loop-auth_args o set service middleware =
      let served = record set { traefik_auth_service_name = o.traefik_auth_service_name } in
      let ported = record served {
        traefik_auth_service_port_name = o.traefik_auth_service_port_name;
      } in
      let end =
        "--traefik-auth-middleware-name"
        ∷ name_string o.traefik_auth_middleware_name
        ∷ schedule_args o in
      text_flag "--traefik-auth-service-name" "traefik-auth-service-name"
        (name_string o.traefik_auth_service_name)
        ("--traefik-auth-service-port-name" ∷ o.traefik_auth_service_port_name ∷ end) set served
        refl refl refl refl
        (ap
          (λ (p : Result (Unit {0}) × NamespacedName).
            some (p.0, record set { traefik_auth_service_name = p.1 }))
          (set_name-name_string name_string documented o.traefik_auth_service_name
            set.traefik_auth_service_name [] service).0)
      ∙ text_flag "--traefik-auth-service-port-name" "traefik-auth-service-port-name"
          o.traefik_auth_service_port_name end served ported refl refl refl refl refl
      ∙ text_flag "--traefik-auth-middleware-name" "traefik-auth-middleware-name"
          (name_string o.traefik_auth_middleware_name) (schedule_args o) ported
          (record ported { traefik_auth_middleware_name = o.traefik_auth_middleware_name }) refl
          refl refl refl
          (ap
            (λ (p : Result (Unit {0}) × NamespacedName).
              some (p.0, record ported { traefik_auth_middleware_name = p.1 }))
            (set_name-name_string name_string documented o.traefik_auth_middleware_name
              set.traefik_auth_middleware_name [] middleware).0)

  -- Every choice of values is read back from a command line: the texts, whether to elect a leader,
  -- the repeated flags in their order, the names if no namespace has a slash, and the schedule if
  -- cron.ParseStandard accepts it; zap's flags keep their defaults. zap defines none of the flags,
  -- and types.NamespacedName.String puts a slash between the namespace and the name.
  pub parse-command_line :
      (o : Flags zap.Options)
      → has_slash o.traefik_auth_service_name.namespace ≡ false
      → has_slash o.traefik_auth_middleware_name.namespace ≡ false
      → All (λ n. has_slash n.namespace ≡ false) o.traefik_middlewares
      → parse_standard o.default_update_schedule ≡ none
      → parse parse_standard zap (command_line o) ≡ parsed (record o { zap_options = zap.initial })
  unfolding parse command_line argument is_defined set_flag elem
  parse-command_line o service middleware middlewares schedule =
      let initial = defaults zap.initial in
      let bound = record initial { metrics_addr = o.metrics_addr } in
      let probed = record bound { probe_addr = o.probe_addr } in
      let prefixed = record probed { traefik_auth_path_prefix = o.traefik_auth_path_prefix } in
      let authenticated = record prefixed {
        traefik_auth_service_name = o.traefik_auth_service_name;
        traefik_auth_service_port_name = o.traefik_auth_service_port_name;
        traefik_auth_middleware_name = o.traefik_auth_middleware_name;
      } in
      let end = "--traefik-auth-path-prefix" ∷ o.traefik_auth_path_prefix ∷ auth_args o in
      text_flag "--metrics-bind-address" "metrics-bind-address" o.metrics_addr
        ("--health-probe-bind-address" ∷ o.probe_addr ∷ end) initial bound refl refl refl refl refl
      ∙ text_flag "--health-probe-bind-address" "health-probe-bind-address" o.probe_addr end bound
          probed refl refl refl refl refl
      ∙ text_flag "--traefik-auth-path-prefix" "traefik-auth-path-prefix" o.traefik_auth_path_prefix
          (auth_args o) probed prefixed refl refl refl refl refl
      ∙ parse_loop-auth_args o prefixed service middleware
      ∙ parse_loop-schedule_args o authenticated schedule
      ∙ parse_loop-list_args o _ middlewares refl refl refl
