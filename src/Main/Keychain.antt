-- ===== src/Main/Keychain.antt =====
-- What becomes of the image pull secrets that cmd/main.go is given.
use application_controller.Common.{String, ℕ, List, [], ◌∷◌, ◌≡◌, refl, sym, ◌∙◌, ap, arith}
use application_controller.Errors.{Result, ok, err, ◌>>=◌}
use application_controller.Images.Registry.{SimpleRegistryClient, opts, current_namespace}
use application_controller.Images.Scheduler.{CronSchedule}
use application_controller.Images.Watcher.{CronImageWatcher}
use application_controller.Images.Wiring.{
  simple, Config, explain, apply_options, new_image_finder, with_authenticated_registry_client,
  new_cron_image_watcher_with_defaults,
}
use application_controller.Main.{World, Program, runs, main}
use application_controller.Main.Start.{main-IsBuilt}

module _ (world : World) where
  open world use {remote, around}

  -- The simple client without options.
  abbrev plain_config : Config remote
  plain_config = record { registry_client = simple (record { extra_opts = [] }) }

  explain-ok :
      {A : Type 0} (text : String) (r : Result A) (a : A) → explain text r ≡ ok a → r ≡ ok a
  unfolding explain
  explain-ok text (ok b) a h = h
  explain-ok text (err e) a h = ground (arith, h)

  bind_inversion :
      {A B : Type 0} (r : Result A) (f : A → Result B) (b : B)
      → (r >>= f) ≡ ok b
      → (a : A) × (r ≡ ok a) × (f a ≡ ok b)
  bind_inversion (ok a) f b h = (a, refl, h)
  bind_inversion (err e) f b h = cc

  -- What follows the reading of the namespace.
  abbrev with_keychain : String → List String → Result (Config remote)
  with_keychain namespace secrets =
      explain "failed to obtain image registry authn keychain: "
        (around.new_in_cluster namespace secrets)
      >>= λ kc. ok plain_config

  with_authenticated_registry_client-plain :
      (secrets : List String) (c : Config remote)
      → with_authenticated_registry_client remote around secrets plain_config ≡ ok c
      → plain_config ≡ c
  unfolding with_authenticated_registry_client
  with_authenticated_registry_client-plain [] c h = ground (arith, h)
  with_authenticated_registry_client-plain (secret ∷ secrets) c h =
      let (namespace, h1, r1) =
        bind_inversion {A = String}
          (explain "failed to read current namespace: " (current_namespace around.namespace_file))
          (λ n. with_keychain n (secret ∷ secrets)) c h in
      let (kc, h2, r2) =
        bind_inversion {A = around.Keychain}
          (explain "failed to obtain image registry authn keychain: "
            (around.new_in_cluster namespace (secret ∷ secrets)))
          (λ kc. ok plain_config) c r1 in
      ground (arith, r2)

  new_image_finder-plain :
      (secrets : List String) (c : Config remote)
      → new_image_finder remote (with_authenticated_registry_client remote around secrets ∷ [])
        ≡ ok c
      → plain_config ≡ c
  unfolding new_image_finder apply_options
  new_image_finder-plain secrets c h =
      let (next, applied, rest) = bind_inversion _ _ c h in
      let kept =
        with_authenticated_registry_client-plain secrets next (explain-ok _ _ next applied) in
      kept ∙ ground (arith, rest)

  wiring-plain :
      (schedule : CronSchedule) (secrets : List String) (w : CronImageWatcher) (c : Config remote)
      → new_cron_image_watcher_with_defaults remote around schedule secrets ≡ ok (w, c)
      → plain_config ≡ c
  unfolding new_cron_image_watcher_with_defaults
  wiring-plain schedule secrets w c h =
      let (finder, found, rest) = bind_inversion _ _ (w, c) h in
      new_image_finder-plain secrets finder (explain-ok _ _ finder found) ∙ ground (arith, rest)

  -- If main starts the goroutines, then its image finder asks registries by a client with no options
  -- but the context, so with no keychain, whatever image pull secrets main is given.
  pub main-opts :
      (args : List String) (program : Program remote) (code : ℕ)
      → main world args ≡ runs program code
      → (c : SimpleRegistryClient remote) × (program.finder.registry_client ≡ simple c)
        × (opts remote c ≡ remote.with_context ∷ [])
  main-opts args program code h =
      let (o, parses, built) = main-IsBuilt world args program code h in
      (
        record { extra_opts = [] },
        ap (λ (c : Config remote). c.registry_client)
            (sym (
              wiring-plain o.default_update_schedule o.image_pull_secrets program.watcher
                program.finder built.watching)),
        refl,
      )
