-- ===== src/Images/Scheduler.antt =====
-- cronScheduler of internal/images/cronwatcher.go: one gocron job for each Application. The
-- gocron library is an interface, and the calls made to it are recorded, latest first.
pub mod Jobs
pub mod Failures
pub mod Unused
use application_controller.Common.{
  String, ℕ, Bool, true, false, Option, none, some, List, [], ◌∷◌, GoMap, ◌==◌, string_eq, nat_eq,
  concat, if◌then◌else◌, map,
}
use application_controller.Errors.{Error, errorf, wrap_after, Result, ok, err}
use application_controller.Kube.{NamespacedName}
use application_controller.Api.{Application}
use application_controller.Images.Cache.{Cache, new_cache, get, set, keep_only}

abbrev pub CronSchedule : Type 0
CronSchedule = String

-- `gocron_job` stands for the pointer to the job.
pub record JobHandle : Type 0 where
  pub gocron_job : ℕ
  pub schedule : CronSchedule

-- `scheduler.Cron(schedule).Do(fn, ctx, app)` that answered with a job, and RemoveByReference.
pub data GocronCall : Type 0 where
  scheduled : ℕ → CronSchedule → Application → GocronCall
  removed : ℕ → GocronCall

-- What the scheduler takes from libraries: the answer of Cron(schedule).Do after the calls so far,
-- and types.NamespacedName.String.
pub record GocronLibrary : Type 0 where
  pub cron_do : List GocronCall → CronSchedule → Result ℕ
  pub name_string : NamespacedName → String

pub record CronScheduler : Type 0 where
  pub default_schedule : CronSchedule
  pub jobs : Cache JobHandle
  pub is_started : Bool
  pub scheduler : List GocronCall

unfoldable pub new_cron_scheduler : CronSchedule → CronScheduler
unfolding new_cache
new_cron_scheduler default = record {
  default_schedule = default;
  jobs = new_cache;
  is_started = false;
  scheduler = [];
}

-- Start, up to its wait for the end of the context.
unfoldable pub start : CronScheduler → CronScheduler
start s = record s { is_started = true }

unfoldable pub schedule_or_default : CronScheduler → Application → CronSchedule
schedule_or_default s app = elim app.spec.image.update_schedule [
  | some schedule ↦ schedule
  | none ↦ s.default_schedule
]

-- for k, h := range discarded { s.scheduler.RemoveByReference(h.gocronJob) }
remove_jobs : GoMap String JobHandle → List GocronCall → List GocronCall
remove_jobs [] calls = calls
remove_jobs ((k, h) ∷ discarded) calls = remove_jobs discarded (removed h.gocron_job ∷ calls)

module _ (library : GocronLibrary) where
  open library use {cron_do, name_string}

  -- (jobKey).CacheKey
  abbrev pub job_key : Application → String
  job_key app = name_string (record { namespace = app.namespace; name = app.name })

  set_job :
      Application → CronSchedule → CronScheduler → Result ℕ → Result (Unit {0}) × CronScheduler
  unfolding set
  set_job app schedule s (err e) = (
    err (wrap_after e (concat ("failed to schedule update check " ∷ job_key app ∷ ": " ∷ []))),
    s,
  )
  set_job app schedule s (ok job) = (
    ok tt,
    record s {
      jobs = set job_key s.jobs app (record { gocron_job = job; schedule = schedule });
      scheduler = scheduled job schedule app ∷ s.scheduler;
    },
  )

  -- The second half of UpsertJob: set a new job up.
  add_job : Application → CronScheduler → Result (Unit {0}) × CronScheduler
  unfolding set_job
  add_job app s =
      let schedule = schedule_or_default s app in
      set_job app schedule s (cron_do s.scheduler schedule)

  update_job : Application → CronScheduler → Option JobHandle → Result (Unit {0}) × CronScheduler
  unfolding add_job
  update_job app s none = add_job app s
  update_job app s (some handle) =
      if handle.schedule == schedule_or_default s app
      then (ok tt, s)
      else add_job app (record s { scheduler = removed handle.gocron_job ∷ s.scheduler })

  -- UpsertJob
  unfoldable pub upsert_job : Application → CronScheduler → Result (Unit {0}) × CronScheduler
  unfolding update_job
  upsert_job app s =
      if s.is_started
      then update_job app s (get job_key s.jobs app)
      else (err (errorf "Scheduler is not started, can't upsert jobs"), s)

  -- KeepJobs; `order` is the order in which the range meets the discarded entries.
  unfoldable pub keep_jobs :
      (GoMap String JobHandle → GoMap String JobHandle)
      → List Application
      → CronScheduler
      → CronScheduler
  unfolding remove_jobs
  keep_jobs order apps s =
      let (jobs, discarded) = keep_only job_key s.jobs apps in
      record s { jobs = jobs; scheduler = remove_jobs (order discarded) s.scheduler }
