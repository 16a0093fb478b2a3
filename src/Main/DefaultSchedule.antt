-- ===== src/Main/DefaultSchedule.antt =====
-- The default update schedule of cmd/main.go, from the flags to the job table.
use application_controller.Common.{
  String, ℕ, none, some, List, GoMap, lookup, ◌≡◌, ◌≢◌, refl, sym, ◌∙◌, ap, subst, arith,
}
use application_controller.Errors.{Result, ok, err, ◌>>=◌}
use application_controller.Api.{ImageSpec, Application}
use application_controller.Images.Cache.{new_cache}
use application_controller.Images.Scheduler.{
  CronSchedule, JobHandle, GocronCall, GocronLibrary, new_cron_scheduler, start,
}
use application_controller.Images.Scheduler.Failures.{Runs}
use application_controller.Images.Scheduler.Unused.{IsUnused}
use application_controller.Images.Watcher.{CronImageWatcher, new_cron_image_watcher, Event, run}
use application_controller.Images.Watcher.DefaultSchedule.{run-Runs}
use application_controller.Images.Wiring.{Config, new_cron_image_watcher_with_defaults}
use application_controller.Main.Options.{Flags, defaults, parsed, parse}
use application_controller.Main.{World, Program, runs, main}
use application_controller.Main.Start.{main-IsBuilt}

-- WatchForNewImages starts the scheduler.
abbrev pub watching : CronImageWatcher → CronImageWatcher
watching w = record w { scheduler = start w.scheduler }

module _ (library : GocronLibrary) (schedule : CronSchedule)
    (refused : (calls : List GocronCall) (job : ℕ) → library.cron_do calls schedule ≢ ok job) where
  new-IsUnused :
      IsUnused library schedule refused
        (watching (new_cron_image_watcher (new_cron_scheduler schedule))).scheduler
  unfolding start new_cron_image_watcher new_cron_scheduler new_cache lookup
  new-IsUnused = record { default = refl; unused = λ key handle held. absurd (none_is_some held) }
    where
      none_is_some : {h : JobHandle} → none ≡ some h → ⊥
      none_is_some e = cc

module _ (world : World) where
  open world use {parse_standard, zap, remote, around}

  watcher_inversion :
      {A : Type 0} (r : Result A) (w watcher : CronImageWatcher) (finder : A)
      → ◌>>=◌ {B = CronImageWatcher × A} r (λ a. ok (w, a)) ≡ ok (watcher, finder)
      → w ≡ watcher
  watcher_inversion (ok a) w watcher finder h = ground (arith, h)
  watcher_inversion (err e) w watcher finder h = cc

  built-watcher :
      (schedule : CronSchedule) (secrets : List String) (watcher : CronImageWatcher)
      (finder : Config remote)
      → new_cron_image_watcher_with_defaults remote around schedule secrets ≡ ok (watcher, finder)
      → new_cron_image_watcher (new_cron_scheduler schedule) ≡ watcher
  unfolding new_cron_image_watcher_with_defaults
  built-watcher schedule secrets watcher finder h = watcher_inversion _ _ watcher finder h

  same_flags : (p q : Flags zap.Options) → parsed p ≡ parsed q → p ≡ q
  same_flags p q h = cc

  -- If main starts the goroutines with the default update schedule that it has before the flags are
  -- read, and gocron refuses that text, then after any sequence of events of the image watcher an
  -- Application that names no schedule of its own has no live job on the schedule that it asks for,
  -- which is the default one.
  pub main-Runs :
      (library : GocronLibrary)
      (refused : (calls : List GocronCall) (job : ℕ)
        → library.cron_do calls (defaults zap.initial).default_update_schedule ≢ ok job)
      (args : List String) (program : Program remote) (code : ℕ) (o : Flags zap.Options)
      → main world args ≡ runs program code
      → parse parse_standard zap args ≡ parsed o
      → o.default_update_schedule ≡ (defaults zap.initial).default_update_schedule
      → (cache_key : ImageSpec → String) (order : GoMap String JobHandle → GoMap String JobHandle)
        (evs : List Event) (app : Application)
      → app.spec.image.update_schedule ≡ none
      → ¬ Runs library app (run cache_key library order (watching program.watcher) evs).scheduler
  main-Runs library refused args program code o starts parses default cache_key order evs app
        unnamed =
      let (o', parses', built) = main-IsBuilt world args program code starts in
      let same : o'.default_update_schedule ≡ (defaults zap.initial).default_update_schedule =
        ap (λ (p : Flags zap.Options). p.default_update_schedule)
          (same_flags o' o (sym parses' ∙ parses))
        ∙ default in
      let watcher =
        ap (λ d. new_cron_image_watcher (new_cron_scheduler d)) (sym same)
        ∙ built-watcher o'.default_update_schedule o'.image_pull_secrets program.watcher
            program.finder built.watching in
      run-Runs library _ refused cache_key order (watching program.watcher) evs app
        (subst (λ w. IsUnused library _ refused (watching w).scheduler) watcher
          (new-IsUnused library _ refused))
        unnamed
