-- ===== src/Images/Watcher/Schedules.antt =====
-- Invariants of the watcher over every sequence of its events.
use application_controller.Common.{
  String, true, Option, none, some, List, [], ◌∷◌, GoMap, ◌==◌, string_eq, map, ℕ, if◌then◌else◌,
  ◌≡◌, refl, arith, lookup, lookup-insert, lookup-delete, elem, All, subst, sym, Bool-cases, inl,
  inr, eq_of_beq, subst₂,
}
use application_controller.Errors.{Result, ok, err}
use application_controller.Api.{ImageSpec, Application}
use application_controller.Images.ImageRef.{ImageRef}
use application_controller.Images.Cache.{get, set, remove}
use application_controller.Images.Cache.Laws.{lookup-keep_only}
use application_controller.Images.Scheduler.{GocronLibrary, JobHandle, CronScheduler, job_key}
use application_controller.Images.Scheduler.Jobs.{
  is_live, Entry, IsTracked, Visits, upsert_job-IsTracked, keep_jobs-IsTracked,
}
use application_controller.Images.Watcher.{
  CronImageWatcher, fetched, find_cached, find_image, enqueue_reconciliation, on_image_updated,
  upsert_jobs, reconcile_schedules, Event, tick, elapsed, pushed, receive, lookup_image, step, run,
}
use application_controller.Images.Watcher.CachedFinder.{on_image_updated_lem}

upsert_jobs-IsTracked :
    (library : GocronLibrary) (apps : List Application) (s : CronScheduler)
    → IsTracked s
    → IsTracked (upsert_jobs library apps s)
unfolding upsert_jobs
upsert_jobs-IsTracked library [] s h = h
upsert_jobs-IsTracked library (app ∷ apps) s h =
    upsert_jobs-IsTracked library apps _ (upsert_job-IsTracked library app s h)

module _ (cache_key : ImageSpec → String) (library : GocronLibrary)
    (order : GoMap String JobHandle → GoMap String JobHandle) where
  -- When the schedules have been reconciled with a list of Applications, the image cache holds
  -- under an ImageSpec what it held before if the ImageSpec has the cache key of one of theirs, and
  -- nothing otherwise.
  pub get-reconcile_schedules :
      (apps : List Application) (w : CronImageWatcher) (spec : ImageSpec)
      → get cache_key (reconcile_schedules cache_key library order (ok apps) w).image_cache spec ≡ (
          if elem (cache_key spec) (map cache_key (map (λ app. app.spec.image) apps))
          then get cache_key w.image_cache spec
          else none)
  unfolding reconcile_schedules get
  get-reconcile_schedules apps w spec =
      (lookup-keep_only cache_key w.image_cache (map (λ app. app.spec.image) apps)
        (cache_key spec)).0

  pub scheduler-find_image :
      (finder : ImageSpec → Result ImageRef) (spec : ImageSpec) (w : CronImageWatcher)
      → (find_image cache_key finder w spec).1.scheduler ≡ w.scheduler
  unfolding find_image
  scheduler-find_image finder spec w = ground arith

  module _ (visits : Visits order) where
    -- When the schedules have been reconciled with a list of Applications, and every live gocron
    -- job belonged to an entry before, then every live gocron job belongs to an entry of one of
    -- these Applications.
    pub reconcile_schedules-IsTracked :
        (apps : List Application) (w : CronImageWatcher)
        → IsTracked w.scheduler
        → let after = reconcile_schedules cache_key library order (ok apps) w in
          (j : ℕ)
          → is_live after.scheduler.scheduler j ≡ true
          → (e : Entry after.scheduler j) × (elem e.key (map (job_key library) apps) ≡ true)
    unfolding reconcile_schedules
    reconcile_schedules-IsTracked apps w h =
        keep_jobs-IsTracked library order visits apps _
          (upsert_jobs-IsTracked library apps w.scheduler h)

    step-IsTracked :
        (w : CronImageWatcher) (ev : Event)
        → IsTracked w.scheduler
        → IsTracked (step cache_key library order w ev).scheduler
    unfolding step reconcile_schedules enqueue_reconciliation on_image_updated
    step-IsTracked w (tick (ok apps)) h j live = (reconcile_schedules-IsTracked apps w h j live).0
    step-IsTracked w (tick (err e)) h j live = h j live
    step-IsTracked w (elapsed app) h j live = h j live
    step-IsTracked w (pushed (err e) repo) h j live = h j live
    step-IsTracked w (pushed (ok apps) repo) h j live =
        subst IsTracked (sym (on_image_updated_lem cache_key repo apps w "").1) h j live
    step-IsTracked w receive h j live = h j live
    step-IsTracked w (lookup_image finder spec) h j live =
        subst IsTracked (sym (scheduler-find_image finder spec w)) h j live

    -- From a watcher in which every live gocron job belongs to an entry of the job table, this
    -- holds after any sequence of events: reconciliations, elapsed schedules, pushes, deliveries
    -- and lookups, whatever fails among them.
    pub run-IsTracked :
        (w : CronImageWatcher) (evs : List Event)
        → IsTracked w.scheduler
        → IsTracked (run cache_key library order w evs).scheduler
    unfolding run
    run-IsTracked w [] h = h
    run-IsTracked w (ev ∷ evs) h =
        run-IsTracked (step cache_key library order w ev) evs (step-IsTracked w ev h)

  -- What the image finder may answer to a lookup under a cache key.
  module _ (Answers : String → ImageRef → Type 0) where
    -- Each lookup among the events is made with a finder whose images are answers to its key.
    abbrev pub IsHonest : Event → Type 0
    IsHonest (lookup_image finder spec) =
        (ref : ImageRef) → finder spec ≡ ok ref → Answers (cache_key spec) ref
    IsHonest _ = Unit

    abbrev pub HoldsAnswers : CronImageWatcher → Type 0
    HoldsAnswers w =
        (key : String) (ref : ImageRef)
        → lookup key w.image_cache.entries ≡ some ref
        → Answers key ref

    fetched-ok :
        (w : CronImageWatcher) (spec : ImageSpec) (r : Result ImageRef) (ref : ImageRef)
        → (fetched cache_key w spec r).0 ≡ ok ref
        → r ≡ ok ref
    unfolding fetched
    fetched-ok w spec (ok found) ref h = h
    fetched-ok w spec (err e) ref h = ground (arith, h)

    fetched-HoldsAnswers :
        (w : CronImageWatcher) (spec : ImageSpec) (r : Result ImageRef)
        → ((ref : ImageRef) → r ≡ ok ref → Answers (cache_key spec) ref)
        → HoldsAnswers w
        → HoldsAnswers (fetched cache_key w spec r).1
    unfolding fetched set
    fetched-HoldsAnswers w spec (err e) honest h key ref held = h key ref held
    fetched-HoldsAnswers w spec (ok found) honest h key ref held =
        elim (Bool-cases (cache_key spec == key)) [
          | inl same ↦
              let stored : found ≡ ref =
                ground (arith, lookup-insert (cache_key spec) key found w.image_cache.entries) in
              subst₂ Answers (eq_of_beq (cache_key spec) key same) stored (honest found refl)
          | inr other ↦ h key ref (rw (lookup-insert (cache_key spec) key, other) at held)
        ]

    find_cached-HoldsAnswers :
        (w : CronImageWatcher) (finder : ImageSpec → Result ImageRef) (spec : ImageSpec)
        (o : Option ImageRef)
        → ((ref : ImageRef) → finder spec ≡ ok ref → Answers (cache_key spec) ref)
        → HoldsAnswers w
        → HoldsAnswers (find_cached cache_key finder w spec o).1
    unfolding find_cached
    find_cached-HoldsAnswers w finder spec (some cached) honest h = h
    find_cached-HoldsAnswers w finder spec none honest h =
        fetched-HoldsAnswers w spec (finder spec) honest h

    find_cached-Answers :
        (w : CronImageWatcher) (finder : ImageSpec → Result ImageRef) (spec : ImageSpec)
        (o : Option ImageRef) (ref : ImageRef)
        → ((ref : ImageRef) → finder spec ≡ ok ref → Answers (cache_key spec) ref)
        → HoldsAnswers w
        → get cache_key w.image_cache spec ≡ o
        → (find_cached cache_key finder w spec o).0 ≡ ok ref
        → Answers (cache_key spec) ref
    unfolding find_cached get
    find_cached-Answers w finder spec (some cached) ref honest h held found =
        let same : cached ≡ ref = ground (arith, found) in
        subst (Answers (cache_key spec)) same (h (cache_key spec) cached held)
    find_cached-Answers w finder spec none ref honest h held found =
        honest ref (fetched-ok w spec (finder spec) ref found)

    -- A lookup keeps the cache so, and gives an answer.
    pub find_image-HoldsAnswers :
        (w : CronImageWatcher) (finder : ImageSpec → Result ImageRef) (spec : ImageSpec)
        → ((ref : ImageRef) → finder spec ≡ ok ref → Answers (cache_key spec) ref)
        → HoldsAnswers w
        → HoldsAnswers (find_image cache_key finder w spec).1
          × ((ref : ImageRef)
              → (find_image cache_key finder w spec).0 ≡ ok ref
              → Answers (cache_key spec) ref)
    unfolding find_image
    find_image-HoldsAnswers w finder spec honest h = (
      find_cached-HoldsAnswers w finder spec (get cache_key w.image_cache spec) honest h,
      λ ref. find_cached-Answers w finder spec (get cache_key w.image_cache spec) ref honest h refl,
    )

    pub step-HoldsAnswers :
        (w : CronImageWatcher) (ev : Event)
        → IsHonest ev
        → HoldsAnswers w
        → HoldsAnswers (step cache_key library order w ev)
    unfolding step reconcile_schedules enqueue_reconciliation on_image_updated find_image remove set
        get
    step-HoldsAnswers w (tick (ok apps)) honest h key ref held = h key ref (
        ground (
          arith,
          (lookup-keep_only cache_key w.image_cache
              (map (λ (app : Application). app.spec.image) apps) key).0,
        ))
    step-HoldsAnswers w (tick (err e)) honest h key ref held = h key ref held
    step-HoldsAnswers w (elapsed app) honest h key ref held =
        h key ref
          (ground (arith, lookup-delete (cache_key app.spec.image) key w.image_cache.entries))
    step-HoldsAnswers w (pushed (err e) repo) honest h key ref held = h key ref held
    step-HoldsAnswers w (pushed (ok apps) repo) honest h key ref held =
        h key ref (ground (arith, (on_image_updated_lem cache_key repo apps w key).2))
    step-HoldsAnswers w receive honest h key ref held = h key ref held
    step-HoldsAnswers w (lookup_image finder spec) honest h key ref held =
        find_cached-HoldsAnswers w finder spec (get cache_key w.image_cache spec) honest h key ref
          held

    -- Let every lookup among the events be made with a finder that gives only answers to its key,
    -- and let the image cache hold only answers. Then it does so after the events: what it holds
    -- under a key is an image that was found for that key, whatever was dropped or kept between.
    pub run-HoldsAnswers :
        (w : CronImageWatcher) (evs : List Event)
        → All IsHonest evs
        → HoldsAnswers w
        → HoldsAnswers (run cache_key library order w evs)
    unfolding run
    run-HoldsAnswers w [] honest h = h
    run-HoldsAnswers w (ev ∷ evs) honest h =
        run-HoldsAnswers (step cache_key library order w ev) evs honest.1
          (step-HoldsAnswers w ev honest.0 h)
