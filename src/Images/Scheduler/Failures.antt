-- ===== src/Images/Scheduler/Failures.antt =====
-- What a successful UpsertJob guarantees of the Application's own job, and what it does not.
use application_controller.Common.{
  ℕ, true, false, Option, none, some, ◌∷◌, ◌==◌, string_eq, nat_eq, ◌≡◌, ◌≢◌, refl, arith,
  lookup-insert, eq_iff, beq_refl, eq_of_beq, Bool-cases, inl, inr,
}
use application_controller.Errors.{Error, Result, ok, err}
use application_controller.Api.{Application}
use application_controller.Images.Cache.{get}
use application_controller.Images.Scheduler.{
  JobHandle, GocronLibrary, CronScheduler, schedule_or_default, job_key, upsert_job, update_job,
  set_job, removed,
}
use application_controller.Images.Scheduler.Jobs.{is_live}

module _ (library : GocronLibrary) where
  -- The Application has a live job, on the schedule that it asks for.
  pub record Runs (app : Application) (s : CronScheduler) : Type 0 where
    pub handle : JobHandle
    pub held : get (job_key library) s.jobs app ≡ some handle
    pub schedule : handle.schedule ≡ schedule_or_default s app
    pub live : is_live s.scheduler handle.gocron_job ≡ true

  upsert_job_started :
      (app : Application) (s : CronScheduler)
      → s.is_started ≡ true
      → upsert_job library app s ≡ update_job library app s (get (job_key library) s.jobs app)
  unfolding upsert_job
  upsert_job_started app s on = ground arith

  set_job-Runs :
      (app : Application) (s : CronScheduler) (r : Result ℕ)
      → (set_job library app (schedule_or_default s app) s r).0 ≡ ok tt
      → Runs app (set_job library app (schedule_or_default s app) s r).1
  unfolding set_job get schedule_or_default
  set_job-Runs app s (err e) succeeded = cc
  set_job-Runs app s (ok job) succeeded = record {
    handle = record { gocron_job = job; schedule = schedule_or_default s app };
    held = rw (lookup-insert (job_key library app), beq_refl (job_key library app));
    schedule = refl;
    live = rw (beq_refl job);
  }

  update_job-Runs :
      (app : Application) (s : CronScheduler) (o : Option JobHandle)
      → get (job_key library) s.jobs app ≡ o
      → ((h : JobHandle)
          → get (job_key library) s.jobs app ≡ some h
          → is_live s.scheduler h.gocron_job ≡ true)
      → (update_job library app s o).0 ≡ ok tt
      → Runs app (update_job library app s o).1
  unfolding update_job schedule_or_default
  update_job-Runs app s none held alive succeeded = set_job-Runs app s _ succeeded
  update_job-Runs app s (some h) held alive succeeded =
      elim (Bool-cases (h.schedule == schedule_or_default s app)) [
        | inl same ↦ rw same (record {
          handle = h;
          held = held;
          schedule = eq_of_beq h.schedule _ same;
          live = alive h held;
        })
        | inr changed ↦ rw changed (set_job-Runs app _ _ (rw changed at succeeded))
      ]

  -- When UpsertJob succeeds, and the job in the Application's entry, if it has one, was live, then
  -- the Application has a live job on its own schedule, or on the default one if it names none.
  pub upsert_job-Runs :
      (app : Application) (s : CronScheduler)
      → ((h : JobHandle)
          → get (job_key library) s.jobs app ≡ some h
          → is_live s.scheduler h.gocron_job ≡ true)
      → (upsert_job library app s).0 ≡ ok tt
      → Runs app (upsert_job library app s).1
  unfolding upsert_job
  upsert_job-Runs app s alive succeeded = elim (Bool-cases s.is_started) [
    | inl on ↦
        rw (upsert_job_started app s on)
          (update_job-Runs app s _ refl alive (rw (upsert_job_started app s on) at succeeded))
    | inr off ↦ cc (rw (off, upsert_job) at succeeded)
  ]

  upsert_job_refused :
      (app : Application) (s : CronScheduler) (h : JobHandle) (e : Error)
      → s.is_started ≡ true
      → get (job_key library) s.jobs app ≡ some h
      → schedule_or_default s app ≢ h.schedule
      → library.cron_do (removed h.gocron_job ∷ s.scheduler) (schedule_or_default s app) ≡ err e
      → (upsert_job library app s).1 ≡ record s { scheduler = removed h.gocron_job ∷ s.scheduler }
  unfolding upsert_job update_job set_job schedule_or_default
  upsert_job_refused app s h e started held other refused =
      rw (upsert_job_started app s started, held)
        (ground (arith, eq_iff h.schedule (schedule_or_default s app)))

  upsert_job_unchanged :
      (app : Application) (s : CronScheduler) (h : JobHandle)
      → s.is_started ≡ true
      → get (job_key library) s.jobs app ≡ some h
      → schedule_or_default s app ≡ h.schedule
      → upsert_job library app s ≡ (ok tt, s)
  unfolding update_job
  upsert_job_unchanged app s h started held own =
      rw (upsert_job_started app s started, held, own, beq_refl h.schedule)

  -- After a change of schedule that the gocron library refuses, all that is different is that the
  -- Application's job has been removed. Going back to the schedule before then succeeds and changes
  -- nothing, neither the job table nor the calls of gocron: the Application's entry still holds the
  -- job that was removed, which is not live.
  pub upsert_job_revert :
      (app changed : Application) (s : CronScheduler) (h : JobHandle) (e : Error)
      → s.is_started ≡ true
      → job_key library changed ≡ job_key library app
      → get (job_key library) s.jobs app ≡ some h
      → schedule_or_default s app ≡ h.schedule
      → schedule_or_default s changed ≢ h.schedule
      → library.cron_do (removed h.gocron_job ∷ s.scheduler) (schedule_or_default s changed) ≡ err e
      → let failed = (upsert_job library changed s).1 in
        (failed ≡ record s { scheduler = removed h.gocron_job ∷ s.scheduler })
        × (upsert_job library app failed ≡ (ok tt, failed))
        × (get (job_key library) failed.jobs app ≡ some h)
        × (is_live failed.scheduler h.gocron_job ≡ false)
  unfolding get schedule_or_default
  upsert_job_revert app changed s h e started same held own other refused =
      let failed = upsert_job_refused changed s h e started (rw same held) other refused in
      let without = record s { scheduler = removed h.gocron_job ∷ s.scheduler } in
      (
        failed,
        rw failed (upsert_job_unchanged app without h started held own),
        rw failed held,
        rw failed (rw (beq_refl h.gocron_job) refl),
      )
