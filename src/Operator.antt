-- ===== src/Operator.antt =====
-- What cmd/main.go puts together: the ApplicationReconciler of internal/controller, whose ImageFinder
-- is the image watcher of internal/images, with its cache.
pub mod FirstImage
pub mod Images
use application_controller.Common.{String, List, [], ◌∷◌, GoMap}
use application_controller.Errors.{Result, ok, err}
use application_controller.Kube.{NamespacedName}
use application_controller.Api.{ImageSpec, Application}
use application_controller.Images.ImageRef.{ImageRef}
use application_controller.Images.Scheduler.{GocronLibrary, JobHandle}
use application_controller.Images.Watcher.{CronImageWatcher, find_image, Event, step, run}
use application_controller.Controller.State.{ImageFinder, State}
use application_controller.Controller.Reconciler.{Reconciler}
use application_controller.Controller.Reconcile.{Outcome, reconcile}

-- What goes on around a Reconcile: the answers of the registry, and the events that the watcher
-- handles while the Reconcile runs, before it looks an image up. Both may depend on the state of the
-- watcher and on the image that is looked up.
pub record Surroundings : Type 0 where
  pub registry : CronImageWatcher → ImageSpec → Result ImageRef
  pub meanwhile : CronImageWatcher → ImageSpec → List Event

-- What happens in the operator, in some order.
pub data Action : Type 0 where
  -- a case of WatchForNewImages, a gocron job, a call of the webhook
  watched : Event → Action
  -- a Reconcile, with the answers of the API server to it
  reconciled : Surroundings → Reconciler CronImageWatcher → NamespacedName → Action

module _ (cache_key : ImageSpec → String) (library : GocronLibrary)
    (order : GoMap String JobHandle → GoMap String JobHandle) where
  unfoldable pub image_watcher : Surroundings → ImageFinder CronImageWatcher
  image_watcher around spec w =
      let now = run cache_key library order w (around.meanwhile w spec) in
      find_image cache_key (around.registry now) now spec

  -- One Reconcile, which starts with no calls made, and shares the watcher.
  unfoldable pub reconcile_with :
      Surroundings
      → Reconciler CronImageWatcher
      → NamespacedName
      → CronImageWatcher
      → Result Outcome × State CronImageWatcher
  unfolding image_watcher
  reconcile_with around r name w =
      reconcile (record r { image_finder = image_watcher around }) name
        (record { history = []; finder = w })

  unfoldable pub perform : CronImageWatcher → Action → CronImageWatcher
  perform w (watched ev) = step cache_key library order w ev
  perform w (reconciled around r name) = (reconcile_with around r name w).1.finder

  unfoldable pub operate : CronImageWatcher → List Action → CronImageWatcher
  operate w [] = w
  operate w (a ∷ actions) = operate (perform w a) actions
