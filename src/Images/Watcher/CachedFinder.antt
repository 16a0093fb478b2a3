-- ===== src/Images/Watcher/CachedFinder.antt =====
-- The image cache of the watcher: when an image is looked up anew, and when it is not.
use application_controller.Common.{
  String, Bool, false, Option, none, some, List, [], ◌∷◌, ◌++◌, ◌==◌, string_eq, if◌then◌else◌, ◌≡◌,
  refl, arith, lookup, lookup-insert, lookup-delete, eq_iff, ◌&&◌, ◌||◌, append-nil, append_assoc,
}
use application_controller.Errors.{Result, ok}
use application_controller.Api.{ImageSpec, Application}
use application_controller.Images.ImageRef.{ImageRef}
use application_controller.Images.Cache.{get, set, remove}
use application_controller.Images.Watcher.{
  CronImageWatcher, find_cached, find_image, enqueue_reconciliation, enqueue_matching,
  on_image_updated,
}

module _ (cache_key : ImageSpec → String) where
  find_cached-repeat :
      (finder : ImageSpec → Result ImageRef) (w : CronImageWatcher) (spec : ImageSpec)
      (o : Option ImageRef) (ref : ImageRef)
      → get cache_key w.image_cache spec ≡ o
      → (find_cached cache_key finder w spec o).0 ≡ ok ref
      → get cache_key (find_cached cache_key finder w spec o).1.image_cache spec ≡ some ref
  unfolding find_cached get set
  find_cached-repeat finder w spec (some cached) ref held found = ground arith
  find_cached-repeat finder w spec none ref held found = ground (
    arith,
    lookup-insert (cache_key spec) (cache_key spec) ref w.image_cache.entries,
    eq_iff (cache_key spec) (cache_key spec),
  )

  -- When FindImage has answered with an image, asking for the same ImageSpec again at once gives
  -- that image, whatever the wrapped finder would say by then, and changes nothing.
  pub find_image-repeat :
      (finder later : ImageSpec → Result ImageRef) (w : CronImageWatcher) (spec : ImageSpec)
      (ref : ImageRef)
      → (find_image cache_key finder w spec).0 ≡ ok ref
      → let after = (find_image cache_key finder w spec).1 in
        find_image cache_key later after spec ≡ (ok ref, after)
  unfolding find_image
  find_image-repeat finder later w spec ref found = rw (
    find_cached-repeat finder w spec (get cache_key w.image_cache spec) ref refl found,
    find_cached,
  )

  -- For every list of Applications, repository and ImageSpec: whether the loop of onImageUpdated
  -- enqueues an Application with that ImageSpec's cache key.
  abbrev pub hits : String → String → List Application → Bool
  hits repo key [] = false
  hits repo key (app ∷ apps) =
      (app.spec.image.repository == repo && cache_key app.spec.image == key) || hits repo key apps

  abbrev pub matching : String → List Application → List Application
  matching repo [] = []
  matching repo (app ∷ apps) =
      let rest = matching repo apps in
      if app.spec.image.repository == repo then app ∷ rest else rest

  lookup-enqueue_matching :
      (repo key : String) (apps : List Application) (w : CronImageWatcher)
      → lookup key (enqueue_matching cache_key repo apps w).image_cache.entries
        ≡ (if hits repo key apps then none else lookup key w.image_cache.entries)
  unfolding enqueue_matching enqueue_reconciliation remove
  lookup-enqueue_matching repo key [] w = refl
  lookup-enqueue_matching repo key (app ∷ apps) w = ground (
    arith,
    lookup-enqueue_matching repo key apps
        (if app.spec.image.repository == repo then enqueue_reconciliation cache_key app w else w),
    lookup-delete (cache_key app.spec.image) key w.image_cache.entries,
  )

  chan-enqueue_matching :
      (repo : String) (apps : List Application) (w : CronImageWatcher)
      → (enqueue_matching cache_key repo apps w).update_chan ≡ w.update_chan ++ matching repo apps
  unfolding enqueue_matching enqueue_reconciliation
  chan-enqueue_matching repo [] w = rw append-nil
  chan-enqueue_matching repo (app ∷ apps) w = ground (
    arith,
    chan-enqueue_matching repo apps
        (if app.spec.image.repository == repo then enqueue_reconciliation cache_key app w else w),
    append_assoc w.update_chan (app ∷ []) (matching repo apps),
  )

  scheduler-enqueue_matching :
      (repo : String) (apps : List Application) (w : CronImageWatcher)
      → (enqueue_matching cache_key repo apps w).scheduler ≡ w.scheduler
  unfolding enqueue_matching enqueue_reconciliation
  scheduler-enqueue_matching repo [] w = refl
  scheduler-enqueue_matching repo (app ∷ apps) w = ground (
    arith,
    scheduler-enqueue_matching repo apps
        (if app.spec.image.repository == repo then enqueue_reconciliation cache_key app w else w),
  )

  -- A push of an image, when the Applications can be listed: every listed Application of that
  -- repository is sent to the controller, in the order in which they run, and no other is; the
  -- schedules stay; and the cache loses what it holds under the cache keys of the ImageSpecs of
  -- these Applications, and nothing else.
  pub on_image_updated_lem :
      (repo : String) (apps : List Application) (w : CronImageWatcher) (key : String)
      → let after = on_image_updated cache_key (ok apps) repo w in
        (after.update_chan ≡ w.update_chan ++ matching repo apps)
        × (after.scheduler ≡ w.scheduler)
        × (lookup key after.image_cache.entries
            ≡ (if hits repo key apps then none else lookup key w.image_cache.entries))
  unfolding on_image_updated
  on_image_updated_lem repo apps w key = (
    chan-enqueue_matching repo apps w,
    scheduler-enqueue_matching repo apps w,
    lookup-enqueue_matching repo key apps w,
  )
