-- ===== src/Main/Start.antt =====
-- What holds of the program when main starts its goroutines.
use application_controller.Common.{
  String, ℕ, Bool, true, false, none, List, ◌≡◌, refl, arith, inl, inr, ◌↔◌, subst,
}
use application_controller.Errors.{Result, ok, err, ◌>>=◌}
use application_controller.Kube.{Kind}
use application_controller.Discovery.{
  ApiResourceList, list_resources, is_prometheus_operator_installed, is_traefik_installed,
}
use application_controller.Discovery.Served.{
  IsServed, Decides, is_prometheus_operator_installed-Decides, is_traefik_installed-Decides,
}
use application_controller.Images.Wiring.{new_cron_image_watcher_with_defaults}
use application_controller.Controller.Setup.{setup_with_manager}
use application_controller.Controller.Setup.Watches.{
  is_watched, expected, setup_with_manager-expected,
}
use application_controller.Main.Options.{Flags, Parsed, parsed, invalid, help, parse}
use application_controller.Main.{
  World, Program, RunningManager, Run, runs, or_exit, manager_options, ingress_routes_of,
  with_manager, with_flags, after_parse, main,
}

module _ (world : World) where
  open world use {parse_standard, zap, kubernetes, new_manager, library, remote, around}

  or_exit_inversion :
      {A : Type 0} (r : Result A) (rest : A → Run remote) (program : Program remote) (code : ℕ)
      → or_exit world r rest ≡ runs program code
      → (a : A) × (r ≡ ok a) × (rest a ≡ runs program code)
  unfolding or_exit
  or_exit_inversion (ok a) rest program code h = (a, refl, h)
  or_exit_inversion (err e) rest program code h = cc

  -- How the parts of the program came about: each from the flags, the answers of the discovery and
  -- the manager, and none of these failed.
  pub record IsBuilt (o : Flags zap.Options) (program : Program remote) : Type 0 where
    pub prometheus :
        is_prometheus_operator_installed kubernetes none ≡ ok program.supports_prometheus
    pub traefik : is_traefik_installed kubernetes none ≡ ok program.supports_traefik
    pub mgr : RunningManager
    pub managed : new_manager (manager_options world o) ≡ ok mgr
    pub watching :
        new_cron_image_watcher_with_defaults remote around o.default_update_schedule
          o.image_pull_secrets
        ≡ ok (program.watcher, program.finder)
    pub routes : program.ingress_routes ≡ ingress_routes_of world o
    pub set_up :
        setup_with_manager mgr.manager library program.supports_prometheus program.supports_traefik
        ≡ ok program.registered
    pub healthz : mgr.add_healthz_check ≡ ok tt
    pub readyz : mgr.add_readyz_check ≡ ok tt

  runs-program : (p q : Program remote) (c d : ℕ) → runs p c ≡ runs q d → p ≡ q
  runs-program p q c d h = cc

  with_flags-IsBuilt :
      (o : Flags zap.Options) (program : Program remote) (code : ℕ)
      → with_flags world o ≡ runs program code
      → IsBuilt o program
  unfolding with_flags with_manager
  with_flags-IsBuilt o program code h =
      let (prometheus, h1, r1) = or_exit_inversion _ _ program code h in
      let (traefik, h2, r2) = or_exit_inversion _ _ program code r1 in
      let (config, h3, r3) = or_exit_inversion _ _ program code r2 in
      let (mgr, h4, r4) = or_exit_inversion _ _ program code r3 in
      let (watching, h5, r5) = or_exit_inversion _ _ program code r4 in
      let (registered, h6, r6) = or_exit_inversion _ _ program code r5 in
      let (healthz, h7, r7) = or_exit_inversion _ _ program code r6 in
      let (readyz, h8, r8) = or_exit_inversion _ _ program code r7 in
      subst (IsBuilt o) (runs-program _ program _ code r8) (record {
        prometheus = h1;
        traefik = h2;
        mgr = mgr;
        managed = h4;
        watching = h5;
        routes = refl;
        set_up = h6;
        healthz = h7;
        readyz = h8;
      })

  after_parse_inversion :
      (p : Parsed zap.Options) (program : Program remote) (code : ℕ)
      → after_parse world p ≡ runs program code
      → (o : Flags zap.Options) × (p ≡ parsed o) × IsBuilt o program
  unfolding after_parse
  after_parse_inversion (parsed o) program code h = (o, refl, with_flags-IsBuilt o program code h)
  after_parse_inversion (invalid message) program code h = cc
  after_parse_inversion help program code h = cc

  -- If main starts the goroutines, then the command line was accepted, the discovery, the manager,
  -- the image watcher, the setup of the controller and both health checks succeeded, and the program
  -- has the flags and the answers of these.
  pub main-IsBuilt :
      (args : List String) (program : Program remote) (code : ℕ)
      → main world args ≡ runs program code
      → (o : Flags zap.Options) × (parse parse_standard zap args ≡ parsed o) × IsBuilt o program
  unfolding main
  main-IsBuilt args program code h = after_parse_inversion _ program code h

  listed_inversion :
      {A : Type 0} (r : Result (List ApiResourceList)) (f : List ApiResourceList → Result A) (a : A)
      → (r >>= f) ≡ ok a
      → (lists : List ApiResourceList) × (r ≡ ok lists)
  listed_inversion (ok lists) f a h = (lists, refl)
  listed_inversion (err e) f a h = cc

  Decides-IsServed :
      (group_version kind : String) (lists : List ApiResourceList) (answer : Result Bool) (b : Bool)
      → Decides group_version kind lists answer
      → answer ≡ ok b
      → (b ≡ true) ↔ IsServed group_version kind lists
  Decides-IsServed group_version kind lists answer b (inl (served, says)) h =
      (λ _. served, λ _. ground (arith, says, h))
  Decides-IsServed group_version kind lists answer b (inr (unserved, says)) h =
      let no_answer : b ≡ false = ground (arith, says, h) in
      (λ is_true. ground (arith, no_answer, is_true), λ served. absurd (unserved served))

  -- If main starts the goroutines, then it has read the API lists, and with the manager that it has
  -- made from its flags, a change of an owned object enqueues its Application for every kind but
  -- CronJob, PodMonitor and IngressRoute; for PodMonitor exactly if one of the lists is of
  -- monitoring.coreos.com/v1 and has it, for IngressRoute exactly if one is of traefik.io/v1alpha1 and
  -- has it, and for CronJob never.
  pub main-is_watched :
      (args : List String) (program : Program remote) (code : ℕ)
      → main world args ≡ runs program code
      → (lists : List ApiResourceList) × (o : Flags zap.Options) × (mgr : RunningManager)
        × (list_resources kubernetes none ≡ ok lists)
        × (parse parse_standard zap args ≡ parsed o)
        × (new_manager (manager_options world o) ≡ ok mgr)
        × ((k : Kind)
            → is_watched mgr.manager.application_kind program.registered.watches k
              ≡ expected program.supports_prometheus program.supports_traefik k)
        × ((program.supports_prometheus ≡ true)
            ↔ IsServed "monitoring.coreos.com/v1" "PodMonitor" lists)
        × ((program.supports_traefik ≡ true) ↔ IsServed "traefik.io/v1alpha1" "IngressRoute" lists)
  unfolding is_prometheus_operator_installed is_traefik_installed
  main-is_watched args program code h =
      let (o, parses, built) = main-IsBuilt args program code h in
      let (lists, listed) =
        listed_inversion (list_resources kubernetes none) _ program.supports_prometheus
          built.prometheus in
      let (indexes, watched) =
        setup_with_manager-expected built.mgr.manager library program.supports_prometheus
          program.supports_traefik program.registered built.set_up in
      (
        lists,
        o,
        built.mgr,
        listed,
        parses,
        built.managed,
        watched,
        Decides-IsServed _ _ lists _ _
            (is_prometheus_operator_installed-Decides kubernetes none lists listed)
            built.prometheus,
        Decides-IsServed _ _ lists _ _ (is_traefik_installed-Decides kubernetes none lists listed)
            built.traefik,
      )
