-- ===== src/Images/Watcher/DefaultSchedule.antt =====
-- What becomes of Applications that name no update schedule if gocron refuses the default one.
use application_controller.Common.{String, ℕ, none, List, [], ◌∷◌, GoMap, ◌≡◌, ◌≢◌, sym, subst}
use application_controller.Errors.{ok, err}
use application_controller.Api.{ImageSpec, Application}
use application_controller.Images.Scheduler.{
  CronSchedule, JobHandle, GocronCall, GocronLibrary, CronScheduler, upsert_job,
}
use application_controller.Images.Scheduler.Failures.{Runs}
use application_controller.Images.Scheduler.Unused.{
  IsUnused, upsert_job-IsUnused, keep_jobs-IsUnused, IsUnused-Runs,
}
use application_controller.Images.Watcher.{
  CronImageWatcher, upsert_jobs, reconcile_schedules, enqueue_reconciliation, on_image_updated,
  Event, tick, elapsed, pushed, receive, lookup_image, step, run,
}
use application_controller.Images.Watcher.CachedFinder.{on_image_updated_lem}
use application_controller.Images.Watcher.Schedules.{scheduler-find_image}

module _ (library : GocronLibrary) (schedule : CronSchedule)
    (refused : (calls : List GocronCall) (job : ℕ) → library.cron_do calls schedule ≢ ok job) where
  abbrev Unused : CronScheduler → Type 0
  Unused = IsUnused library schedule refused

  upsert_jobs-IsUnused :
      (apps : List Application) (s : CronScheduler) → Unused s → Unused (upsert_jobs library apps s)
  unfolding upsert_jobs
  upsert_jobs-IsUnused [] s u = u
  upsert_jobs-IsUnused (app ∷ apps) s u =
      upsert_jobs-IsUnused apps (upsert_job library app s).1
        (upsert_job-IsUnused library schedule refused app s u)

  module _ (cache_key : ImageSpec → String)
      (order : GoMap String JobHandle → GoMap String JobHandle) where
    step-IsUnused :
        (w : CronImageWatcher) (ev : Event)
        → Unused w.scheduler
        → Unused (step cache_key library order w ev).scheduler
    unfolding step reconcile_schedules enqueue_reconciliation on_image_updated
    step-IsUnused w (tick (ok apps)) u =
        keep_jobs-IsUnused library schedule refused order apps _
          (upsert_jobs-IsUnused apps w.scheduler u)
    step-IsUnused w (tick (err e)) u = u
    step-IsUnused w (elapsed app) u = u
    step-IsUnused w (pushed (err e) repo) u = u
    step-IsUnused w (pushed (ok apps) repo) u =
        subst Unused (sym (on_image_updated_lem cache_key repo apps w "").1) u
    step-IsUnused w receive u = u
    step-IsUnused w (lookup_image finder spec) u =
        subst Unused (sym (scheduler-find_image cache_key library order finder spec w)) u

    run-IsUnused :
        (w : CronImageWatcher) (evs : List Event)
        → Unused w.scheduler
        → Unused (run cache_key library order w evs).scheduler
    unfolding run
    run-IsUnused w [] u = u
    run-IsUnused w (ev ∷ evs) u =
        run-IsUnused (step cache_key library order w ev) evs (step-IsUnused w ev u)

    -- If gocron refuses the default schedule, and no entry of the job table is on it, then after
    -- any sequence of events an Application that names no schedule has no job.
    pub run-Runs :
        (w : CronImageWatcher) (evs : List Event) (app : Application)
        → Unused w.scheduler
        → app.spec.image.update_schedule ≡ none
        → ¬ Runs library app (run cache_key library order w evs).scheduler
    run-Runs w evs app u unnamed =
        IsUnused-Runs library schedule refused app _ unnamed (run-IsUnused w evs u)
