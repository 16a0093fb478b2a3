-- ===== src/Controller/Reconcile/Rightful.antt =====
-- Reconcile of internal/controller/application_controller.go touches only what the Application owns.
use application_controller.Common.{
  String, not, Option, none, some, List, [], ◌∷◌, All, ◌≡◌, sym, subst,
}
use application_controller.Errors.{Error, Result, ok, err}
use application_controller.Kube.{NamespacedName, Kind, Object, Spec, Condition}
use application_controller.Api.{Application, ImageSpec}
use application_controller.Controller.Names.{finalizer_name}
use application_controller.Controller.State.{Call, get_application, update, update_status, State, M}
use application_controller.Controller.State.Keeps.{
  Holds, Keeps, Keeps-pure, Keeps-fail, Keeps-call, Keeps-attempt, Keeps-if, Keeps-eventf,
  Keeps-bind,
}
use application_controller.Controller.Reconcile.Phases.{reconcile-reconcile_application}
use application_controller.Controller.State.Steps.{then_call}
use application_controller.Controller.Resource.{EventMap}
use application_controller.Controller.Resource.Rightful.{IsSound, IsRightful}
use application_controller.Controller.Reconciler.{Reconciler}
use application_controller.Controller.Reconciler.Fitting.{IsFitting}
use application_controller.Images.ImageRef.{ImageRef}
use application_controller.Controller.Reconciler.Bindings.Rightful.{
  reconcile_role_bindings-Keeps, reconcile_cluster_role_bindings-Keeps, reconcile_cron_jobs-Keeps,
  ensure_no_cluster_role_bindings-Keeps,
}
use application_controller.Controller.Reconciler.Owned.Rightful.{
  reconcile_service_account-Keeps, reconcile_service-Keeps, reconcile_lb_service-Keeps,
  reconcile_pod_monitor-Keeps, reconcile_ingress_route-Keeps, reconcile_deployment-Keeps,
}
use application_controller.Controller.Reconcile.{
  Outcome, status_updated, do_update_status, joined, update_status_with_error, or_report,
  then_or_report, finish, reconcile_owned, add_finalizer, finalize, live, deleted, initialise,
  reconcile_application, reconcile,
}

module _ {F : Type 0} (H : F → Type 0) (Fits : (k : Kind) → Spec k → Type 0)
    (Answers : ImageSpec → ImageRef → Type 0) (r : Reconciler F) (app : Application)
    (fit : IsFitting H Fits Answers r app) where
  open r use {client, library}

  abbrev Q : Call → Type 0
  Q = IsSound library app Fits

  status_updated-Keeps : (answer : Result Application) → Keeps H Q (status_updated r answer)
  unfolding status_updated
  status_updated-Keeps (ok _) = Keeps-pure _
  status_updated-Keeps (err e) =
      Keeps-if (client.is_conflict e) _ _ (λ _. Keeps-pure _) λ _. Keeps-fail e

  do_update_status-Keeps : (a : Application) → Keeps H Q (do_update_status r a)
  unfolding do_update_status
  do_update_status-Keeps a =
      Keeps-bind _ _ (Keeps-attempt _ (Keeps-call (update_status a) _ tt)) status_updated-Keeps

  joined-Keeps : (e : Error) (result : Result Outcome) → Keeps H Q (joined r e result)
  unfolding joined
  joined-Keeps e (ok _) = Keeps-fail e
  joined-Keeps e (err status_err) = Keeps-fail _

  update_status_with_error-Keeps :
      (e : Error) (reason : String) → Keeps H Q (update_status_with_error r app e reason)
  unfolding update_status_with_error
  update_status_with_error-Keeps e reason =
      Keeps-bind _ _ (Keeps-attempt _ (do_update_status-Keeps _)) (joined-Keeps e)

  or_report-Keeps :
      {A : Type 0} (reason : String) (result : Result A) (rest : A → M F Outcome)
      → ((a : A) → Keeps H Q (rest a))
      → Keeps H Q (or_report r app reason result rest)
  unfolding or_report
  or_report-Keeps reason (ok a) rest keeps = keeps a
  or_report-Keeps reason (err e) rest keeps = update_status_with_error-Keeps e reason

  then_or_report-Keeps :
      {A : Type 0} (events : EventMap) (m : M F A) (rest : A → M F Outcome)
      → Keeps H Q m
      → ((a : A) → Keeps H Q (rest a))
      → Keeps H Q (then_or_report r app events m rest)
  unfolding then_or_report
  then_or_report-Keeps events m rest km kr =
      Keeps-bind _ _ (Keeps-attempt m km)
        λ result. or_report-Keeps events.upsert_failed result rest kr

  finish-Keeps :
      (deployed : Option (Object Kind.deployment × Application)) → Keeps H Q (finish r deployed)
  unfolding finish
  finish-Keeps none = Keeps-pure _
  finish-Keeps (some (deploy, a)) = do_update_status-Keeps _

  reconcile_owned-Keeps : Keeps H Q (reconcile_owned r app)
  unfolding reconcile_owned
  reconcile_owned-Keeps =
      then_or_report-Keeps _ _ _ (reconcile_service_account-Keeps H Fits Answers r app fit) λ _.
        then_or_report-Keeps _ _ _ (reconcile_role_bindings-Keeps H Fits Answers r app fit) λ _.
          then_or_report-Keeps _ _ _
            (reconcile_cluster_role_bindings-Keeps H Fits Answers r app fit)
            λ _. then_or_report-Keeps _ _ _ (reconcile_service-Keeps H Fits Answers r app fit) λ _.
              then_or_report-Keeps _ _ _ (reconcile_lb_service-Keeps H Fits Answers r app fit) λ _.
                then_or_report-Keeps _ _ _ (reconcile_pod_monitor-Keeps H Fits Answers r app fit)
                  λ _.
                    then_or_report-Keeps _ _ _
                      (reconcile_ingress_route-Keeps H Fits Answers r app fit)
                      λ _.
                        then_or_report-Keeps _ _ _
                          (reconcile_cron_jobs-Keeps H Fits Answers r app fit)
                          λ _.
                            then_or_report-Keeps _ _ _
                              (reconcile_deployment-Keeps H Fits Answers r app fit) finish-Keeps

  finalize-Keeps : Keeps H Q (finalize r app)
  unfolding finalize
  finalize-Keeps = Keeps-bind _ _ (Keeps-eventf _ _ tt) λ _.
      Keeps-bind _ _ (ensure_no_cluster_role_bindings-Keeps H Fits Answers r app fit)
        λ _. Keeps-bind _ _ (Keeps-call (update _) _ tt) λ _. Keeps-pure _

  add_finalizer-Keeps : Keeps H Q (add_finalizer r app)
  unfolding add_finalizer
  add_finalizer-Keeps = Keeps-bind _ _ (Keeps-call (update _) _ tt) λ _. Keeps-pure _

  initialise-Keeps : (conditions : List Condition) → Keeps H Q (initialise r app conditions)
  unfolding initialise live deleted
  initialise-Keeps [] = do_update_status-Keeps _
  initialise-Keeps (_ ∷ _) =
      Keeps-if (not app.is_deleted) _ _
        (λ _.
          Keeps-if (not (library.contains_finalizer app finalizer_name)) _ _
            (λ _. add_finalizer-Keeps) λ _. reconcile_owned-Keeps)
        λ _.
          Keeps-if (library.contains_finalizer app finalizer_name) _ _ (λ _. finalize-Keeps)
            λ _. Keeps-pure _

  reconcile_application-Keeps : Keeps H Q (reconcile_application r app)
  unfolding reconcile_application
  reconcile_application-Keeps = initialise-Keeps app.status.conditions

  -- The finder's invariant and the property of the calls, after Reconcile.
  pub reconcile-Holds :
      (name : NamespacedName) (s : State F)
      → client.get_application s.history name ≡ ok app
      → Holds H Q s
      → Holds H Q (reconcile r name s).1
  reconcile-Holds name s read holds =
      subst (λ p. Holds H Q p.1) (sym (reconcile-reconcile_application r name app s read))
        (reconcile_application-Keeps.at (then_call (get_application name) s)
          (holds.0, (tt, holds.1)))

-- A finder that may answer anything.
any-IsFitting :
    {F : Type 0} (r : Reconciler F) (app : Application)
    → IsFitting (λ _. Unit) (λ k spec. Unit) (λ spec ref. Unit) r app
any-IsFitting r app = record {
  honest = λ spec f h. (tt, λ ref found. tt);
  plain = λ k plain spec. tt;
  deployment = λ ref answer o. tt;
  cron_job = λ job ref answer o. tt;
}

-- Whatever the API server and the image finder answer, if the Application is read as `app`, then
-- of all the calls that Reconcile makes in whatever branch it takes, each deletion is of an object
-- that `app` owns by isObjectOwnedBy, and each object handed over to be created or patched carries
-- the controller reference or the owner annotations of `app`. It is the invariant of a history:
-- if it holds of the calls before, it holds of those after.
pub reconcile-IsRightful :
    {F : Type 0} (r : Reconciler F) (name : NamespacedName) (app : Application) (s : State F)
    → r.client.get_application s.history name ≡ ok app
    → All (IsRightful r.library app) s.history
    → All (IsRightful r.library app) (reconcile r name s).1.history
reconcile-IsRightful r name app s read rightful =
    (reconcile-Holds (λ _. Unit) (λ k spec. Unit) (λ spec ref. Unit) r app (any-IsFitting r app)
      name s read (tt, rightful)).1
