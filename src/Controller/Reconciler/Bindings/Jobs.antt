-- ===== src/Controller/Reconciler/Bindings/Jobs.antt =====
-- What the success of reconcileCronJobs means.
use application_controller.Common.{
  map, lookup, List, [], ◌∷◌, insert, ◌≡◌, refl, sym, ◌∙◌, ap, subst, arith, true,
}
use application_controller.Errors.{Result, ok}
use application_controller.Kube.{NamespacedName, Kind, Object, name_eq}
use application_controller.Api.{Application, CronJobSpec}
use application_controller.Controller.Names.{cron_job_name}
use application_controller.Controller.State.{list, State, M, pure, call}
use application_controller.Controller.State.Steps.{then_call, bind_ok_inversion}
use application_controller.Controller.Mutators.CronJobs.{cron_job_mutate}
use application_controller.Controller.Resource.{ensure_resource}
use application_controller.Controller.Resource.Committed.{Committed, ensure_resource-Committed}
use application_controller.Controller.Reconciler.{SeenSet, Reconciler, cron_job_events}
use application_controller.Controller.Reconciler.Seen.{mark}
use application_controller.Controller.Reconciler.Zero.{zero_object}
use application_controller.Controller.Reconciler.Bindings.{
  listed_names, schedule_jobs, reconcile_cron_jobs,
}
use application_controller.Controller.Reconciler.Bindings.CleanUp.{
  Sweeps, clean_seen, range-Sweeps, name_of, lookup-listed_names, listed_names-IsMap,
}

module _ {F : Type 0} (r : Reconciler F) (app : Application) where
  open r use {client, library}

  -- ensureResource for the CronJob of one entry of the spec.
  unfoldable pub ensure_job : CronJobSpec → M F (Object Kind.cron_job)
  ensure_job job =
      ensure_resource library client app (cron_job_name app job.name) Kind.cron_job
        (zero_object Kind.cron_job) (cron_job_mutate r.image_finder app job) cron_job_events

  -- A CronJob is created or patched for each entry of the spec, one after the other.
  abbrev pub Scheduled : List CronJobSpec → State F → State F → Type 0
  Scheduled [] s t = t ≡ s
  Scheduled (job ∷ jobs) s t =
      (m : State F) × (cj : Object Kind.cron_job) × (ensure_job job s ≡ (ok cj, m))
      × Committed library client app (cron_job_name app job.name) Kind.cron_job
          (cron_job_mutate r.image_finder app job) cj m.history
      × Scheduled jobs m t

  -- The names of the CronJobs that the entries ask for.
  abbrev pub job_names : List CronJobSpec → List NamespacedName
  job_names [] = []
  job_names (job ∷ jobs) = cron_job_name app job.name ∷ job_names jobs

  ScheduledAfter :
      List CronJobSpec → SeenSet → SeenSet → State F → Result SeenSet × State F → Type 0
  ScheduledAfter jobs seen after s p = Scheduled jobs s p.1 × (after ≡ mark (job_names jobs) seen)

  no_jobs :
      (seen after : SeenSet) (s : State F)
      → (schedule_jobs r app [] seen s).0 ≡ ok after
      → ScheduledAfter [] seen after s (schedule_jobs r app [] seen s)
  unfolding ScheduledAfter schedule_jobs pure
  no_jobs seen after s h = (refl, ground arith)

  schedule_jobs-Scheduled :
      (jobs : List CronJobSpec) (seen after : SeenSet) (s : State F)
      → (schedule_jobs r app jobs seen s).0 ≡ ok after
      → ScheduledAfter jobs seen after s (schedule_jobs r app jobs seen s)
  unfolding ScheduledAfter schedule_jobs ensure_job
  schedule_jobs-Scheduled [] seen after s h = no_jobs seen after s h
  schedule_jobs-Scheduled (job ∷ jobs) seen after s h =
      let next = insert (cron_job_name app job.name) true seen in
      let (cj, ended, rest, run) =
        bind_ok_inversion (ensure_job job) (λ _. schedule_jobs r app jobs next) s after h in
      let m = (ensure_job job s).1 in
      let (scheduled, seen_eq) = schedule_jobs-Scheduled jobs next after m rest in
      let committed =
        ensure_resource-Committed library client app (cron_job_name app job.name) Kind.cron_job
          (cron_job_mutate r.image_finder app job) (zero_object Kind.cron_job) cj cron_job_events s
          ended in
      (
        (
          m,
          cj,
          ap (λ x. (x, m)) ended,
          committed,
          subst (Scheduled jobs m) (sym (ap (λ p. p.1) run)) scheduled,
        ),
        seen_eq,
      )

  -- If reconcileCronJobs succeeds, then the CronJobs of the Application were listed, and for each
  -- entry of the spec the API server created or patched its CronJob, in their order. After that each
  -- listed name that no entry has was removed, and no other: a read found nothing under the name, or
  -- what the Application owns, whose deletion was accepted.
  pub reconcile_cron_jobs-Sweeps :
      (s : State F)
      → (reconcile_cron_jobs r app s).0 ≡ ok tt
      → (cjs : List (Object Kind.cron_job)) × (t : State F) × (client.list s.history Kind.cron_job
            app.namespace app.name
          ≡ ok cjs)
        × Scheduled app.spec.cron_jobs (then_call (list Kind.cron_job app.namespace app.name) s) t
        × Sweeps r app Kind.cron_job
            (map name_of cjs)
            (job_names app.spec.cron_jobs)
            t
            (reconcile_cron_jobs r app s).1
  unfolding reconcile_cron_jobs call clean_seen ScheduledAfter lookup
  reconcile_cron_jobs-Sweeps s h =
      let (cjs, listed, h1, run1) =
        bind_ok_inversion (call (list Kind.cron_job app.namespace app.name) _) _ s tt h in
      let (seen, scheduled_ok, h2, run2) =
        bind_ok_inversion (schedule_jobs r app app.spec.cron_jobs (listed_names [] cjs)) _ _ tt
          h1 in
      let (scheduled, seen_eq) =
        schedule_jobs-Scheduled app.spec.cron_jobs (listed_names [] cjs) seen _ scheduled_ok in
      (
        cjs,
        _,
        listed,
        scheduled,
        subst (Sweeps r app Kind.cron_job (map name_of cjs) (job_names app.spec.cron_jobs) _)
            (sym (ap (λ p. p.1) (run1 ∙ run2)))
            (range-Sweeps r app Kind.cron_job cron_job_events (map name_of cjs)
              (job_names app.spec.cron_jobs) (listed_names [] cjs) seen _
              (listed_names-IsMap cjs [] tt) (λ n. lookup-listed_names n cjs []) seen_eq h2),
      )
