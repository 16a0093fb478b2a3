-- ===== src/Examples/Operating.antt =====
-- An example of the theorem on the operator as a whole.
use application_controller.Common.{String, true, List, [], ◌∷◌, ◌≡◌, refl, arith, All, lookup}
use application_controller.Errors.{ok}
use application_controller.Api.{ImageSpec}
use application_controller.Images.ImageRef.{ImageRef}
use application_controller.Images.Cache.{new_cache}
use application_controller.Images.Watcher.{
  pushed, CronImageWatcher, new_cron_image_watcher, tick, elapsed,
}
use application_controller.Images.Watcher.Schedules.{HoldsAnswers}
use application_controller.Controller.Resource.Rightful.{IsSound}
use application_controller.Controller.Reconciler.{Reconciler}
use application_controller.Controller.Reconciler.Seen.{Reordered-refl}
use application_controller.Operator.{
  Surroundings, Action, watched, reconciled, reconcile_with, operate,
}
use application_controller.Operator.Images.{IsTruthful, Runs, reconcile_with-IsSound}
use application_controller.Examples.Watching.{gocron, idle}
use application_controller.Examples.Cluster.{
  web, web_ref, web_name, test_library, test_routes, cluster_with,
}

abbrev repository : ImageSpec → String
repository spec = spec.repository

-- A registry that has the same tag in every repository; the webhook is called all the time.
abbrev around : Surroundings
around = record {
  registry = λ w spec. ok (record web_ref { repository = spec.repository });
  meanwhile = λ w spec. pushed (ok (web ∷ [])) "example/web" ∷ [];
}

-- An image of the repository.
abbrev OfRepository : String → ImageRef → Type 0
OfRepository key ref = ref.repository ≡ key

abbrev live : Reconciler CronImageWatcher
live = record {
  image_finder = λ spec w. (ok web_ref, w);
  ingress_routes = test_routes;
  client = cluster_with web;
  library = test_library;
  range_order = λ h seen. seen;
  range_visits = λ h seen. Reordered-refl seen;
  supports_prometheus = true;
  supports_traefik = true;
}

abbrev watcher : CronImageWatcher
watcher = new_cron_image_watcher idle

abbrev actions : List Action
actions =
    watched (tick (ok (web ∷ []))) ∷ reconciled around live web_name ∷ watched (elapsed web) ∷ []

nothing_held : HoldsAnswers repository gocron (λ m. m) OfRepository watcher
unfolding new_cron_image_watcher new_cache lookup
nothing_held key ref held = ground (arith, held)

truthful : IsTruthful repository gocron (λ m. m) OfRepository around
truthful = record {
  answers = λ w spec ref found. ground (arith, found);
  meanwhile = λ w spec. (tt, tt);
}

reconcile_with-IsSound_example :
    let after =
      reconcile_with repository gocron
        (λ m. m)
        around
        live
        web_name
        (operate repository gocron (λ m. m) watcher actions) in
    HoldsAnswers repository gocron (λ m. m) OfRepository after.1.finder
    × All
        (IsSound test_library web (Runs repository gocron (λ m. m) OfRepository web))
        after.1.history
reconcile_with-IsSound_example =
    reconcile_with-IsSound repository gocron (λ m. m) OfRepository watcher actions around live
      web_name web nothing_held (tt, (truthful, (tt, tt))) truthful (λ d. refl) refl
