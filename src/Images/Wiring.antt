-- ===== src/Images/Wiring.antt =====
-- The constructors of internal/images/imagefinder.go and cronwatcher.go, and the webhook handler.
use application_controller.Common.{String, ℕ, List, [], ◌∷◌}
use application_controller.Errors.{wrap_after, message, Result, ok, err, ◌>>=◌}
use application_controller.Api.{Application, ImageSpec}
use application_controller.Images.Finder.{RegistryClient}
use application_controller.Images.Registry.{Remote, SimpleRegistryClient, current_namespace}
use application_controller.Images.Scheduler.{CronSchedule, new_cron_scheduler}
use application_controller.Images.Watcher.{
  CronImageWatcher, new_cron_image_watcher, on_image_updated,
}

-- What WithAuthenticatedRegistryClient takes from its surroundings: the file with the namespace,
-- kubeauth.NewInCluster for a namespace and the names of secrets, and remote.WithAuthFromKeychain.
pub record Surroundings (remote : Remote) : Type 1 where
  pub Keychain : Type 0
  pub namespace_file : Result String
  pub new_in_cluster : String → List String → Result Keychain
  pub with_auth_from_keychain : Keychain → remote.Option

-- A registry client: the simple one, or one that is handed in.
pub data AnyRegistryClient (remote : Remote) : Type 0 where
  simple : SimpleRegistryClient remote → AnyRegistryClient remote
  given : RegistryClient → AnyRegistryClient remote

-- The config, which is all of an imageFinder.
pub record Config (remote : Remote) : Type 0 where
  pub registry_client : AnyRegistryClient remote

abbrev pub Option : Remote → Type 0
Option remote = Config remote → Result (Config remote)

-- `fmt.Errorf(text + "%w", err)`
unfoldable pub explain : {A : Type 0} → String → Result A → Result A
explain text (ok a) = ok a
explain text (err e) = err (wrap_after e text)

module _ (remote : Remote) where
  unfoldable pub apply_options : List (Option remote) → Config remote → Result (Config remote)
  unfolding explain
  apply_options [] cfg = ok cfg
  apply_options (opt ∷ opts) cfg =
      explain "failed to apply option: " (opt cfg) >>= λ next. apply_options opts next

  -- NewImageFinder
  unfoldable pub new_image_finder : List (Option remote) → Result (Config remote)
  unfolding apply_options
  new_image_finder opts =
      apply_options opts (record { registry_client = simple (record { extra_opts = [] }) })

  -- WithRegistryClient
  abbrev pub with_registry_client : RegistryClient → Option remote
  with_registry_client t c = ok (record c { registry_client = given t })

  module _ (around : Surroundings remote) where
    open around use {namespace_file, new_in_cluster, with_auth_from_keychain}

    -- WithAuthenticatedRegistryClient; with secrets, the client that it makes is not stored.
    unfoldable pub with_authenticated_registry_client : List String → Option remote
    unfolding explain current_namespace
    with_authenticated_registry_client [] c =
        ok (record c { registry_client = simple (record { extra_opts = [] }) })
    with_authenticated_registry_client (secret ∷ secrets) c = do
      namespace ← explain "failed to read current namespace: " (current_namespace namespace_file)
      kc ←
          explain "failed to obtain image registry authn keychain: "
            (new_in_cluster namespace (secret ∷ secrets))
      let client : SimpleRegistryClient remote = record {
        extra_opts = with_auth_from_keychain kc ∷ [];
      }
      ok c

    -- NewCronImageWatcherWithDefaults: the watcher, and the image finder that it wraps.
    unfoldable pub new_cron_image_watcher_with_defaults :
        CronSchedule → List String → Result (CronImageWatcher × Config remote)
    unfolding explain new_image_finder with_authenticated_registry_client
    new_cron_image_watcher_with_defaults default_schedule image_pull_secrets = do
      finder ←
          explain "failed to instantiate image finder: "
            (new_image_finder (with_authenticated_registry_client image_pull_secrets ∷ []))
      ok (new_cron_image_watcher (new_cron_scheduler default_schedule), finder)

-- What the webhook handler of ServeWebhook answers: nothing, or http.Error.
pub data Response : Type 0 where
  empty : Response
  http_error : String → ℕ → Response

-- The handler of /webhooks/image: `hook` is the image name that the JSON decoder reads from the body,
-- and `apps` the answer of ListApplications.
unfoldable pub handle_webhook :
    (ImageSpec → String)
    → Result String
    → Result (List Application)
    → CronImageWatcher
    → Response × CronImageWatcher
handle_webhook cache_key (err e) apps w = (http_error (message e) 500, w)
handle_webhook cache_key (ok image_name) apps w =
    (empty, on_image_updated cache_key apps image_name w)
