-- ===== src/Images/Watcher.antt =====
-- cronImageWatcher of internal/images/cronwatcher.go: the cached image finder, the reconciliation
-- of the update schedules, and what an elapsed schedule or a pushed image sets off.
pub mod CachedFinder
pub mod Schedules
pub mod DefaultSchedule
use application_controller.Common.{
  String, Bool, true, false, Option, none, some, List, [], ◌∷◌, ◌++◌, GoMap, ◌==◌, string_eq, map,
  if◌then◌else◌,
}
use application_controller.Errors.{Error, wrap_after, Result, ok, err}
use application_controller.Api.{ImageSpec, Application}
use application_controller.Images.ImageRef.{ImageRef}
use application_controller.Images.Cache.{Cache, new_cache, get, set, remove, keep_only}
use application_controller.Images.Scheduler.{
  GocronLibrary, JobHandle, CronScheduler, upsert_job, keep_jobs,
}

-- `update_chan` holds the Applications that are being sent on the channel, in order.
pub record CronImageWatcher : Type 0 where
  pub image_cache : Cache ImageRef
  pub scheduler : CronScheduler
  pub update_chan : List Application

unfoldable pub new_cron_image_watcher : CronScheduler → CronImageWatcher
unfolding new_cache
new_cron_image_watcher scheduler = record {
  image_cache = new_cache;
  scheduler = scheduler;
  update_chan = [];
}

-- WatchForNewImages: the cases of the select statement, one step each.
pub data Event : Type 0 where
  -- the schedule trigger fired, and ListApplications answered
  tick : Result (List Application) → Event
  -- a gocron job ran
  elapsed : Application → Event
  -- the webhook was called
  pushed : Result (List Application) → String → Event
  -- the channel hands its first Application to the controller
  receive : Event
  -- the controller asks for an image
  lookup_image : (ImageSpec → Result ImageRef) → ImageSpec → Event

receive_update : List Application → List Application
receive_update [] = []
receive_update (app ∷ apps) = apps

-- The loop of reconcileSchedules over the Applications; a failed UpsertJob is logged.
upsert_jobs : GocronLibrary → List Application → CronScheduler → CronScheduler
upsert_jobs library [] s = s
upsert_jobs library (app ∷ apps) s = upsert_jobs library apps (upsert_job library app s).1

-- `cache_key` is (imageSpecKey).CacheKey: the JSON text of the ImageSpec.
module _ (cache_key : ImageSpec → String) where
  fetched : CronImageWatcher → ImageSpec → Result ImageRef → Result ImageRef × CronImageWatcher
  fetched w spec (err e) = (err (wrap_after e "failed to find the latest suitable image: "), w)
  fetched w spec (ok ref) =
      (ok ref, record w { image_cache = set cache_key w.image_cache spec ref })

  find_cached :
      (ImageSpec → Result ImageRef)
      → CronImageWatcher
      → ImageSpec
      → Option ImageRef
      → Result ImageRef × CronImageWatcher
  unfolding fetched
  find_cached finder w spec (some cached) = (ok cached, w)
  find_cached finder w spec none = fetched w spec (finder spec)

  -- FindImage; `finder` is the wrapped image finder at the time of the call.
  unfoldable pub find_image :
      (ImageSpec → Result ImageRef)
      → CronImageWatcher
      → ImageSpec
      → Result ImageRef × CronImageWatcher
  unfolding find_cached
  find_image finder w spec = find_cached finder w spec (get cache_key w.image_cache spec)

  -- enqueueReconciliation
  unfoldable pub enqueue_reconciliation : Application → CronImageWatcher → CronImageWatcher
  enqueue_reconciliation app w = record w {
    image_cache = remove cache_key w.image_cache app.spec.image;
    update_chan = w.update_chan ++ app ∷ [];
  }

  enqueue_matching : String → List Application → CronImageWatcher → CronImageWatcher
  enqueue_matching repo [] w = w
  enqueue_matching repo (app ∷ apps) w =
      enqueue_matching repo apps
        (if app.spec.image.repository == repo then enqueue_reconciliation app w else w)

  -- onImageUpdated; `apps` is the answer of ListApplications, put in the order in which the
  -- goroutines that the loop starts run.
  unfoldable pub on_image_updated :
      Result (List Application) → String → CronImageWatcher → CronImageWatcher
  unfolding enqueue_matching
  on_image_updated (err e) repo w = w
  on_image_updated (ok apps) repo w = enqueue_matching repo apps w

  module _ (library : GocronLibrary) (order : GoMap String JobHandle → GoMap String JobHandle) where
    -- reconcileSchedules
    unfoldable pub reconcile_schedules :
        Result (List Application) → CronImageWatcher → CronImageWatcher
    unfolding upsert_jobs
    reconcile_schedules (err e) w = w
    reconcile_schedules (ok apps) w = record w {
      scheduler = keep_jobs library order apps (upsert_jobs library apps w.scheduler);
      image_cache = (keep_only cache_key w.image_cache (map (λ app. app.spec.image) apps)).0;
    }

  module _ (library : GocronLibrary) (order : GoMap String JobHandle → GoMap String JobHandle) where
    unfoldable pub step : CronImageWatcher → Event → CronImageWatcher
    unfolding receive_update
    step w (tick apps) = reconcile_schedules library order apps w
    step w (elapsed app) = enqueue_reconciliation app w
    step w (pushed apps repo) = on_image_updated apps repo w
    step w receive = record w { update_chan = receive_update w.update_chan }
    step w (lookup_image finder spec) = (find_image finder w spec).1

    -- the `for` of WatchForNewImages
    unfoldable pub run : CronImageWatcher → List Event → CronImageWatcher
    run w [] = w
    run w (ev ∷ evs) = run (step w ev) evs
