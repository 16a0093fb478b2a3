-- ===== src/Examples/Watching.antt =====
-- Examples of the theorems on the scheduler, the cache and the watcher.
use application_controller.Common.{
  String, delete, true, false, none, some, List, [], ◌∷◌, concat, lookup, insert, length, map, elem,
  ◌==◌, string_eq, eq_of_beq, ◌≡◌, ◌≢◌, refl, ap, arith, inl, inr, if◌then◌else◌, Bool-cases,
}
use application_controller.Errors.{Error, foreign, Result, ok, err}
use application_controller.Api.{ImageSpec, Application}
use application_controller.Images.ImageRef.{ImageRef}
use application_controller.Images.Cache.{get, set, remove, keep_only}
use application_controller.Images.Scheduler.{
  JobHandle, scheduled, removed, GocronLibrary, CronScheduler, job_key, schedule_or_default,
  upsert_job, keep_jobs,
}
use application_controller.Images.Scheduler.Jobs.{is_live, Entry, IsTracked, Visits}
use application_controller.Images.Scheduler.Failures.{Runs, upsert_job-Runs, upsert_job_revert}
use application_controller.Images.Watcher.{
  CronImageWatcher, Event, tick, elapsed, receive, lookup_image, find_image, on_image_updated,
  reconcile_schedules, run, step, enqueue_reconciliation,
}
use application_controller.Images.Watcher.CachedFinder.{
  hits, matching, find_image-repeat, on_image_updated_lem,
}
use application_controller.Images.Watcher.Schedules.{
  reconcile_schedules-IsTracked, run-IsTracked, HoldsAnswers, run-HoldsAnswers,
}
use application_controller.Examples.Cluster.{web, web_spec, web_image, web_ref, name_text}

abbrev refused : Error
refused = foreign "BadRequest" "cron expression cannot be parsed"

-- A gocron library that refuses one schedule, and numbers the jobs.
abbrev pub gocron : GocronLibrary
gocron = record {
  cron_do = λ calls schedule. if schedule == "bad" then err refused else ok (length calls);
  name_string = name_text;
}

abbrev pub idle : CronScheduler
idle = record {
  default_schedule = "@every 5m";
  jobs = record { entries = [] };
  is_started = true;
  scheduler = [];
}

abbrev web_job : JobHandle
web_job = record { gocron_job = 0; schedule = "@every 5m" }

abbrev busy : CronScheduler
busy = record idle {
  jobs = record { entries = (job_key gocron web, web_job) ∷ [] };
  scheduler = scheduled 0 "@every 5m" web ∷ [];
}

-- The Application with a schedule that gocron refuses.
abbrev bad_web : Application
bad_web = record web {
  spec = record web_spec { image = record web_image { update_schedule = some "bad" } };
}

idle-IsTracked : IsTracked idle
idle-IsTracked j live = ground arith

busy-IsTracked : IsTracked busy
unfolding lookup concat
busy-IsTracked j live = record {
  key = job_key gocron web;
  handle = web_job;
  present = refl;
  own = ground (arith, live);
}

any_order : Visits (λ m. m)
unfolding lookup
any_order [] k h held = ground arith
any_order ((j, v) ∷ m) k h held = elim (Bool-cases (j == k)) [
  | inl same ↦
      let value : h ≡ v = ground (arith, held, same) in
      inl (ground (arith, value, eq_of_beq j k same))
  | inr other ↦ inr (any_order m k h (ground (arith, held, other)))
]

no_job :
    (h : JobHandle)
    → get (job_key gocron) idle.jobs web ≡ some h
    → is_live idle.scheduler h.gocron_job ≡ true
unfolding get lookup
no_job h held = ground arith

schedules : (upsert_job gocron web idle).0 ≡ ok tt
unfolding upsert_job get lookup schedule_or_default
schedules = refl

upsert_job-Runs_example : Runs gocron web (upsert_job gocron web idle).1
upsert_job-Runs_example = upsert_job-Runs gocron web idle no_job schedules

stays_busy : is_live (keep_jobs gocron (λ m. m) (web ∷ []) busy).scheduler 0 ≡ true
unfolding keep_jobs keep_only lookup insert concat
stays_busy = refl

holds_web : get (job_key gocron) busy.jobs web ≡ some web_job
unfolding get lookup concat
holds_web = refl

default_is_own : schedule_or_default busy web ≡ web_job.schedule
unfolding schedule_or_default
default_is_own = refl

bad_is_other : schedule_or_default busy bad_web ≢ web_job.schedule
unfolding schedule_or_default
bad_is_other e = let differs : true ≡ false = ap (λ s. s == "bad") e in ground (arith, differs)

refused_schedule :
    gocron.cron_do (removed 0 ∷ busy.scheduler) (schedule_or_default busy bad_web) ≡ err refused
unfolding schedule_or_default
refused_schedule = refl

upsert_job_revert_example :
    let failed = (upsert_job gocron bad_web busy).1 in
    (failed ≡ record busy { scheduler = removed 0 ∷ busy.scheduler })
    × (upsert_job gocron web failed ≡ (ok tt, failed))
    × (get (job_key gocron) failed.jobs web ≡ some web_job)
    × (is_live failed.scheduler 0 ≡ false)
upsert_job_revert_example =
    upsert_job_revert gocron web bad_web busy web_job refused refl refl holds_web default_is_own
      bad_is_other refused_schedule

abbrev key_of : ImageSpec → String
key_of spec = spec.repository

abbrev watching : CronImageWatcher
watching = record {
  image_cache = record { entries = ("example/web", web_ref) ∷ ("example/db", web_ref) ∷ [] };
  scheduler = busy;
  update_chan = [];
}

abbrev finder : ImageSpec → Result ImageRef
finder spec = ok web_ref

finds_web : (find_image key_of finder watching web_image).0 ≡ ok web_ref
unfolding find_image get lookup
finds_web = refl

find_image-repeat_example :
    let after = (find_image key_of finder watching web_image).1 in
    find_image key_of (λ spec. err refused) after web_image ≡ (ok web_ref, after)
find_image-repeat_example =
    find_image-repeat key_of finder (λ spec. err refused) watching web_image web_ref finds_web

on_image_updated_lem_example :
    let after = on_image_updated key_of (ok (web ∷ [])) "example/web" watching in
    (after.update_chan ≡ matching key_of "example/web" (web ∷ []))
    × (after.scheduler ≡ busy)
    × (lookup "example/db" after.image_cache.entries ≡ (
        if hits key_of "example/web" "example/db" (web ∷ [])
        then none
        else lookup "example/db" watching.image_cache.entries))
on_image_updated_lem_example =
    on_image_updated_lem key_of "example/web" (web ∷ []) watching "example/db"

stays_watching :
    is_live
      (reconcile_schedules key_of gocron (λ m. m) (ok (web ∷ [])) watching).scheduler.scheduler
      0
    ≡ true
unfolding reconcile_schedules upsert_job keep_jobs keep_only get lookup insert concat
    schedule_or_default
stays_watching = refl

reconcile_schedules-IsTracked_example :
    (e : Entry (reconcile_schedules key_of gocron (λ m. m) (ok (web ∷ [])) watching).scheduler 0)
    × (elem e.key (map (job_key gocron) (web ∷ [])) ≡ true)
reconcile_schedules-IsTracked_example =
    reconcile_schedules-IsTracked key_of gocron (λ m. m) any_order (web ∷ []) watching
      busy-IsTracked 0 stays_watching

abbrev events : List Event
events = tick (ok (web ∷ [])) ∷ elapsed web ∷ lookup_image finder web_image ∷ receive ∷ []

run-IsTracked_example : IsTracked (run key_of gocron (λ m. m) watching events).scheduler
run-IsTracked_example =
    run-IsTracked key_of gocron (λ m. m) any_order watching events busy-IsTracked

abbrev IsWebImage : String → ImageRef → Type 0
IsWebImage key ref = web_ref ≡ ref

first_entries : HoldsAnswers key_of gocron (λ m. m) IsWebImage watching
unfolding lookup
first_entries key ref held = ground (arith, held)

cached_again :
    lookup "example/web" (run key_of gocron (λ m. m) watching events).image_cache.entries
    ≡ some web_ref
unfolding run step reconcile_schedules enqueue_reconciliation find_image upsert_job keep_jobs
    keep_only get set remove lookup insert delete concat schedule_or_default
cached_again = refl

run-HoldsAnswers_example : IsWebImage "example/web" web_ref
run-HoldsAnswers_example =
    run-HoldsAnswers key_of gocron (λ m. m) IsWebImage watching events
      (tt, (tt, ((λ ref found. ground (arith, found)), (tt, tt)))) first_entries "example/web"
      web_ref cached_again
