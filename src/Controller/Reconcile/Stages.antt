-- ===== src/Controller/Reconcile/Stages.antt =====
-- The stages of Reconcile (internal/controller/application_controller.go) in their order: a success
-- means that all of them succeeded, and an error is reported and handed on.
use application_controller.Common.{String, Option, List, [], ◌∷◌, ◌≡◌, refl, sym, ◌∙◌, ap, arith}
use application_controller.Errors.{Error, message, Result, ok, err}
use application_controller.Kube.{Kind, Object}
use application_controller.Api.{Application}
use application_controller.Controller.State.{update_status, State, M}
use application_controller.Controller.State.Steps.{then_call, bind-attempt}
use application_controller.Controller.Resource.{EventMap}
use application_controller.Controller.Reconciler.{
  Reconciler, service_account_events, role_binding_events, cluster_role_binding_events,
  service_events, lb_service_events, pod_monitor_events, ingress_route_events, cron_job_events,
  deployment_events,
}
use application_controller.Controller.Reconciler.Bindings.{
  reconcile_role_bindings, reconcile_cluster_role_bindings, reconcile_cron_jobs,
}
use application_controller.Controller.Reconciler.Owned.{
  reconcile_service_account, reconcile_service, reconcile_lb_service, reconcile_pod_monitor,
  reconcile_ingress_route, reconcile_deployment,
}
use application_controller.Controller.Reconcile.{
  Outcome, ready, set_conditions, joined, do_update_status, update_status_with_error, or_report,
  then_or_report, finish, reconcile_owned,
}
use application_controller.Controller.Reconcile.Phases.{
  status_answer, do_update_status_lem, joined_error, joined_lem,
}

module _ {F : Type 0} (r : Reconciler F) (app : Application) where
  open r use {client, library}

  -- What updateStatusWithError reports.
  abbrev pub reported : Error → String → Application
  reported e reason = set_conditions r app (ready "False" reason (message e))

  -- updateStatusWithError never succeeds: the error that it hands on is the given one, joined with
  -- that of the status update if the update failed by other than a conflict. Its one call is the
  -- update of the status with a Ready condition that is False, has the given reason and the
  -- error's text.
  pub update_status_with_error_lem :
      (e : Error) (reason : String) (s : State F)
      → update_status_with_error r app e reason s ≡ (
        err (
            joined_error r e
              (status_answer r (client.update_status s.history (reported e reason)))),
        then_call (update_status (reported e reason)) s,
      )
  unfolding update_status_with_error
  update_status_with_error_lem e reason s =
      bind-attempt (do_update_status r (reported e reason)) (joined r e) s
      ∙ ap (λ p. joined r e p.0 p.1) (do_update_status_lem r (reported e reason) s)
      ∙ joined_lem r e _ _

  -- One stage and the stages after it.
  then_or_report-or_report :
      {A : Type 0} (events : EventMap) (m : M F A) (rest : A → M F Outcome) (s : State F)
      → then_or_report r app events m rest s
        ≡ or_report r app events.upsert_failed (m s).0 rest (m s).1
  unfolding then_or_report
  then_or_report-or_report events m rest s =
      bind-attempt m (λ result. or_report r app events.upsert_failed result rest) s

  or_report_inversion :
      {A : Type 0} (reason : String) (result : Result A) (rest : A → M F Outcome) (t : State F)
      (o : Outcome)
      → (or_report r app reason result rest t).0 ≡ ok o
      → (a : A) × (result ≡ ok a) × (or_report r app reason result rest t ≡ rest a t)
  unfolding or_report
  or_report_inversion reason (ok a) rest t o h = (a, refl, refl)
  or_report_inversion reason (err e) rest t o h =
      let failed = ap (λ p. p.0) (sym (update_status_with_error_lem e reason t)) ∙ h in
      ground (arith, failed)

  stage :
      {A : Type 0} (events : EventMap) (m : M F A) (rest : A → M F Outcome) (s : State F)
      (o : Outcome)
      → (then_or_report r app events m rest s).0 ≡ ok o
      → (a : A) × ((m s).0 ≡ ok a) × (then_or_report r app events m rest s ≡ rest a (m s).1)
  stage events m rest s o h =
      let run = then_or_report-or_report events m rest s in
      let (a, ended, on) = or_report_inversion _ _ rest _ o (ap (λ p. p.0) (sym run) ∙ h) in
      (a, ended, run ∙ on)

  -- The methods succeed, each from the state in which the one before it ended.
  abbrev pub InOrder : List (M F (Unit {0})) → State F → State F → Type 0
  InOrder [] s t = t ≡ s
  InOrder (m ∷ ms) s t = ((m s).0 ≡ ok tt) × InOrder ms (m s).1 t

  abbrev pub stages : List (M F (Unit {0}))
  stages =
      reconcile_service_account r app
      ∷ reconcile_role_bindings r app
      ∷ reconcile_cluster_role_bindings r app
      ∷ reconcile_service r app
      ∷ reconcile_lb_service r app
      ∷ reconcile_pod_monitor r app
      ∷ reconcile_ingress_route r app
      ∷ reconcile_cron_jobs r app
      ∷ []

  stages_of : List (EventMap × M F (Unit {0})) → (Unit {0} → M F Outcome) → M F Outcome
  stages_of [] rest = rest tt
  stages_of ((events, m) ∷ ms) rest = then_or_report r app events m λ _. stages_of ms rest

  methods : List (EventMap × M F (Unit {0})) → List (M F (Unit {0}))
  methods [] = []
  methods ((events, m) ∷ ms) = m ∷ methods ms

  stages_of-InOrder :
      (ms : List (EventMap × M F (Unit {0}))) (rest : Unit {0} → M F Outcome) (s : State F)
      (o : Outcome)
      → (stages_of ms rest s).0 ≡ ok o
      → (t : State F) × InOrder (methods ms) s t × (stages_of ms rest s ≡ rest tt t)
  unfolding stages_of methods
  stages_of-InOrder [] rest s o h = (s, refl, refl)
  stages_of-InOrder ((events, m) ∷ ms) rest s o h =
      let (_, ended, run) = stage events m (λ _. stages_of ms rest) s o h in
      let (t, order, run') = stages_of-InOrder ms rest (m s).1 o (ap (λ p. p.0) (sym run) ∙ h) in
      (t, (ended, order), run ∙ run')

  -- If the reconciliation of the owned objects succeeds, then all of its stages have succeeded in
  -- their order: ServiceAccount, RoleBindings, ClusterRoleBindings, Service, load balancer
  -- Service, PodMonitor, IngressRoute, CronJobs and Deployment, each from the state in which the
  -- one before it ended, and what followed is the status update from the Deployment.
  pub reconcile_owned-InOrder :
      (s : State F) (o : Outcome)
      → (reconcile_owned r app s).0 ≡ ok o
      → (t : State F) × (deployed : Option (Object Kind.deployment × Application)) × InOrder stages
          s t
        × ((reconcile_deployment r app t).0 ≡ ok deployed)
        × (reconcile_owned r app s ≡ finish r deployed (reconcile_deployment r app t).1)
  unfolding reconcile_owned stages_of methods
  reconcile_owned-InOrder s o h =
      let deploy : Unit {0} → M F Outcome =
        λ _. then_or_report r app deployment_events (reconcile_deployment r app) (finish r) in
      let (t, order, run) =
        stages_of-InOrder
          ((service_account_events, reconcile_service_account r app)
            ∷ (role_binding_events, reconcile_role_bindings r app)
            ∷ (cluster_role_binding_events, reconcile_cluster_role_bindings r app)
            ∷ (service_events, reconcile_service r app)
            ∷ (lb_service_events, reconcile_lb_service r app)
            ∷ (pod_monitor_events, reconcile_pod_monitor r app)
            ∷ (ingress_route_events, reconcile_ingress_route r app)
            ∷ (cron_job_events, reconcile_cron_jobs r app)
            ∷ [])
          deploy s o h in
      let (deployed, ended, on) =
        stage deployment_events (reconcile_deployment r app) (finish r) t o
          (ap (λ p. p.0) (sym run) ∙ h) in
      (t, deployed, order, ended, run ∙ on)
