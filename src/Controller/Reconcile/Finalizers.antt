-- ===== src/Controller/Reconcile/Finalizers.antt =====
-- The finalizer of an Application (Reconcile of internal/controller/application_controller.go) goes
-- only after its ClusterRoleBindings.
use application_controller.Common.{true, not, List, ◌∷◌, ◌≡◌, sym, ◌∙◌, ap}
use application_controller.Errors.{Error, ok, err}
use application_controller.Kube.{NamespacedName, Condition, Kind, Object}
use application_controller.Api.{Application}
use application_controller.Controller.Names.{finalizer_name}
use application_controller.Controller.State.{
  get_application, list, update, event, State, pure, call,
}
use application_controller.Controller.State.Steps.{
  then_call, if-true, if-false, bind-err, bind-eventf, bind_ok_inversion,
}
use application_controller.Controller.Resource.{event_type_normal}
use application_controller.Controller.Reconciler.{Reconciler}
use application_controller.Controller.Reconciler.Bindings.{ensure_no_cluster_role_bindings}
use application_controller.Controller.Reconciler.Bindings.Removal.{
  AllRemoved, owner_text, ensure_no_cluster_role_bindings-AllRemoved,
}
use application_controller.Controller.Reconcile.{
  Outcome, event_reason_cleanup, finalize, live, deleted, initialise, reconcile_application,
  reconcile,
}
use application_controller.Controller.Reconcile.Phases.{reconcile-reconcile_application}

module _ {F : Type 0} (r : Reconciler F) (app : Application) where
  open r use {client, library}

  -- The Application has been given its first status, and its deletion timestamp is set.
  pub record IsLeaving : Type 0 where
    pub condition : Condition
    pub conditions : List Condition
    pub has_status : app.status.conditions ≡ condition ∷ conditions
    pub is_deleted : app.is_deleted ≡ true

  reconcile_application-deleted :
      (s : State F) → IsLeaving → reconcile_application r app s ≡ deleted r app s
  unfolding reconcile_application initialise
  reconcile_application-deleted s l =
      ap (λ cs. initialise r app cs s) l.has_status
      ∙ if-false (not app.is_deleted) (live r app) (deleted r app) s (ap not l.is_deleted)

  reconcile_application-finalize :
      (s : State F)
      → IsLeaving
      → library.contains_finalizer app finalizer_name ≡ true
      → reconcile_application r app s ≡ finalize r app s
  unfolding deleted
  reconcile_application-finalize s l has =
      reconcile_application-deleted s l
      ∙ if-true (library.contains_finalizer app finalizer_name) (finalize r app) _ s has

  -- The state in which the clean-up starts, if Reconcile was called in the state `s`.
  abbrev pub cleaning : NamespacedName → State F → State F
  cleaning name s =
      then_call (event event_type_normal event_reason_cleanup) (then_call (get_application name) s)

  -- An Application that is being deleted and has the finalizer: if Reconcile succeeds, then its
  -- ClusterRoleBindings were listed by their owner, each of those in the answer was removed, one
  -- after the other, and the update that takes the finalizer away is the one call that followed.
  pub reconcile-AllRemoved :
      (name : NamespacedName) (s : State F) (outcome : Outcome)
      → client.get_application s.history name ≡ ok app
      → IsLeaving
      → library.contains_finalizer app finalizer_name ≡ true
      → (reconcile r name s).0 ≡ ok outcome
      → (crbs : List (Object Kind.cluster_role_binding)) × (t : State F) × (client.list
            (cleaning name s).history
            Kind.cluster_role_binding
            ""
            (owner_text r app)
          ≡ ok crbs)
        × AllRemoved r app crbs
            (then_call (list Kind.cluster_role_binding "" (owner_text r app)) (cleaning name s))
            t
        × ((reconcile r name s).1
            ≡ then_call (update (library.remove_finalizer app finalizer_name)) t)
  unfolding finalize call pure
  reconcile-AllRemoved name s outcome read l has h =
      let whole =
        reconcile-reconcile_application r name app s read
        ∙ reconcile_application-finalize (then_call (get_application name) s) l has
        ∙ bind-eventf event_type_normal event_reason_cleanup _
            (then_call (get_application name) s) in
      let (_, cleaned, h1, run1) =
        bind_ok_inversion (ensure_no_cluster_role_bindings r app) _ (cleaning name s) outcome
          (ap (λ p. p.0) (sym whole) ∙ h) in
      let (_, updated, h2, run2) =
        bind_ok_inversion (call (update (library.remove_finalizer app finalizer_name)) _) _ _
          outcome h1 in
      let (crbs, listed, all) =
        ensure_no_cluster_role_bindings-AllRemoved r app (cleaning name s) cleaned in
      (crbs, _, listed, all, ap (λ p. p.1) (whole ∙ run1 ∙ run2))

  -- If the clean-up of an Application that is being deleted fails, then Reconcile fails with the
  -- same error, and makes no call after it: the finalizer stays.
  pub reconcile-clean_up_failed :
      (name : NamespacedName) (s t : State F) (e : Error)
      → client.get_application s.history name ≡ ok app
      → IsLeaving
      → library.contains_finalizer app finalizer_name ≡ true
      → ensure_no_cluster_role_bindings r app (cleaning name s) ≡ (err e, t)
      → reconcile r name s ≡ (err e, t)
  unfolding finalize
  reconcile-clean_up_failed name s t e read l has failed =
      reconcile-reconcile_application r name app s read
      ∙ reconcile_application-finalize (then_call (get_application name) s) l has
      ∙ bind-eventf event_type_normal event_reason_cleanup _ (then_call (get_application name) s)
      ∙ bind-err _ _ (cleaning name s) t e failed
