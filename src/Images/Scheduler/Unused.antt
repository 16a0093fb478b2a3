-- ===== src/Images/Scheduler/Unused.antt =====
-- A schedule that gocron refuses never gets into the job table.
use application_controller.Common.{
  String, ℕ, Option, none, some, List, ◌∷◌, GoMap, lookup, lookup-insert, elem, map, ◌==◌,
  string_eq, ◌≡◌, ◌≢◌, refl, sym, ◌∙◌, ap, subst, arith, Bool-cases, inl, inr, if_true, if_false,
  if_cases,
}
use application_controller.Errors.{Result, ok, err}
use application_controller.Api.{Application}
use application_controller.Images.Cache.{get, set}
use application_controller.Images.Cache.Laws.{lookup-keep_only}
use application_controller.Images.Scheduler.{
  CronSchedule, JobHandle, GocronCall, GocronLibrary, CronScheduler, schedule_or_default, job_key,
  upsert_job, update_job, add_job, set_job, keep_jobs, removed,
}
use application_controller.Images.Scheduler.Failures.{Runs}

module _ (library : GocronLibrary) (schedule : CronSchedule)
    (refused : (calls : List GocronCall) (job : ℕ) → library.cron_do calls schedule ≢ ok job) where
  -- It is the default schedule, and no entry of the job table is on it.
  pub record IsUnused (s : CronScheduler) : Type 0 where
    pub default : s.default_schedule ≡ schedule
    pub unused :
        (key : String) (handle : JobHandle)
        → lookup key s.jobs.entries ≡ some handle
        → handle.schedule ≢ schedule

  set_job-IsUnused :
      (app : Application) (chosen : CronSchedule) (s : CronScheduler) (answer : Result ℕ)
      → ((job : ℕ) → answer ≡ ok job → chosen ≢ schedule)
      → IsUnused s
      → IsUnused (set_job library app chosen s answer).1
  unfolding set_job set
  set_job-IsUnused app chosen s (err e) accepted u = u
  set_job-IsUnused app chosen s (ok job) accepted u = record {
    default = u.default;
    unused = λ key handle held.
        let at =
          lookup-insert (job_key library app) key (record { gocron_job = job; schedule = chosen })
            s.jobs.entries in
        let other = u.unused key handle in
        let fits = accepted job refl in
        elim (Bool-cases (job_key library app == key)) [
          | inl same ↦
              let new : some (record { gocron_job = job; schedule = chosen }) ≡ some handle =
                sym (if_true _ _ _ same) ∙ sym at ∙ held in
              subst (λ x. x ≢ schedule) (ground (arith, new)) fits
          | inr differs ↦ other (sym (if_false _ _ _ differs) ∙ sym at ∙ held)
        ];
  }

  add_job-IsUnused :
      (app : Application) (s : CronScheduler) → IsUnused s → IsUnused (add_job library app s).1
  unfolding add_job
  add_job-IsUnused app s u =
      let chosen = schedule_or_default s app in
      set_job-IsUnused app chosen s (library.cron_do s.scheduler chosen)
        (λ job accepted same.
          refused s.scheduler job (ap (library.cron_do s.scheduler) (sym same) ∙ accepted))
        u

  update_job-IsUnused :
      (app : Application) (s : CronScheduler) (held : Option JobHandle)
      → IsUnused s
      → IsUnused (update_job library app s held).1
  unfolding update_job
  update_job-IsUnused app s none u = add_job-IsUnused app s u
  update_job-IsUnused app s (some handle) u =
      elim (Bool-cases (handle.schedule == schedule_or_default s app)) [
        | inl same ↦ rw same u
        | inr changed ↦
            let without = record s { scheduler = removed handle.gocron_job ∷ s.scheduler } in
            rw changed
              (add_job-IsUnused app without (record { default = u.default; unused = u.unused }))
      ]

  pub upsert_job-IsUnused :
      (app : Application) (s : CronScheduler) → IsUnused s → IsUnused (upsert_job library app s).1
  unfolding upsert_job
  upsert_job-IsUnused app s u =
      if_cases (λ (p : Result (Unit {0}) × CronScheduler). IsUnused p.1) s.is_started _ _
        (λ on. update_job-IsUnused app s (get (job_key library) s.jobs app) u) (λ off. u)

  pub keep_jobs-IsUnused :
      (order : GoMap String JobHandle → GoMap String JobHandle) (apps : List Application)
      (s : CronScheduler)
      → IsUnused s
      → IsUnused (keep_jobs library order apps s)
  unfolding keep_jobs
  keep_jobs-IsUnused order apps s u = record {
    default = u.default;
    unused = λ key handle held.
        let kept = sym (lookup-keep_only (job_key library) s.jobs apps key).0 ∙ held in
        elim (Bool-cases (elem key (map (job_key library) apps))) [
          | inl stays ↦ u.unused key handle (sym (if_true _ _ _ stays) ∙ kept)
          | inr goes ↦
              let gone : none ≡ some handle = sym (if_false _ _ _ goes) ∙ kept in
              ground (arith, gone)
        ];
  }

  -- An Application that names no schedule has no job.
  pub IsUnused-Runs :
      (app : Application) (s : CronScheduler)
      → app.spec.image.update_schedule ≡ none
      → IsUnused s
      → ¬ Runs library app s
  unfolding schedule_or_default get
  IsUnused-Runs app s unnamed u runs =
      let chosen : schedule_or_default s app ≡ s.default_schedule =
        ap (λ o. elim o [ some own ↦ own | none ↦ s.default_schedule ]) unnamed in
      u.unused (job_key library app) runs.handle runs.held (runs.schedule ∙ chosen ∙ u.default)
