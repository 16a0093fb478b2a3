-- ===== src/Controller/Reconcile/Phases.antt =====
-- The phases of Reconcile (internal/controller/application_controller.go): which calls it makes
-- before and after the reconciliation of the owned objects.
use application_controller.Common.{Bool, true, false, if◌then◌else◌, ◌≡◌, refl, ◌∙◌, ap}
use application_controller.Errors.{Error, join, Result, ok, err}
use application_controller.Kube.{NamespacedName}
use application_controller.Api.{Application}
use application_controller.Controller.State.{
  get_application, update_status, State, pure, fail, call,
}
use application_controller.Controller.State.Steps.{then_call, bind-attempt}
use application_controller.Controller.Reconciler.{Reconciler}
use application_controller.Controller.Reconcile.{
  Outcome, done, requeue, status_updated, do_update_status, joined, reconcile_application, got,
  reconcile,
}

module _ {F : Type 0} (r : Reconciler F) where
  open r use {client, library}

  pub reconcile-reconcile_application :
      (name : NamespacedName) (app : Application) (s : State F)
      → client.get_application s.history name ≡ ok app
      → reconcile r name s ≡ reconcile_application r app (then_call (get_application name) s)
  unfolding reconcile got call
  reconcile-reconcile_application name app s read =
      bind-attempt _ (got r) s
      ∙ ap (λ answer. got r answer (then_call (get_application name) s)) read

  unread :
      (absent : Bool) (e : Error) (s : State F) → ((if absent then pure done else fail e) s).1 ≡ s
  unfolding pure fail
  unread true e s = refl
  unread false e s = refl

  -- An Application that cannot be read: that was the only call.
  pub reconcile-unread :
      (name : NamespacedName) (e : Error) (s : State F)
      → client.get_application s.history name ≡ err e
      → (reconcile r name s).1 ≡ then_call (get_application name) s
  unfolding reconcile got call
  reconcile-unread name e s read =
      ap (λ p. p.1)
        (bind-attempt _ (got r) s
          ∙ ap (λ answer. got r answer (then_call (get_application name) s)) read)
      ∙ unread (client.is_not_found e) e (then_call (get_application name) s)

  -- What updateStatus makes of the answer to its one call.
  unfoldable pub status_answer : Result Application → Result Outcome
  status_answer (ok _) = ok done
  status_answer (err e) = if client.is_conflict e then ok requeue else err e

  decide :
      (conflict : Bool) (e : Error) (s : State F)
      → (if conflict then pure requeue else fail e) s ≡ (if conflict then ok requeue else err e, s)
  unfolding pure fail
  decide true e s = refl
  decide false e s = refl

  status_updated_lem :
      (answer : Result Application) (s : State F)
      → status_updated r answer s ≡ (status_answer answer, s)
  unfolding status_updated status_answer pure fail
  status_updated_lem (ok _) s = refl
  status_updated_lem (err e) s = decide (client.is_conflict e) e s

  pub do_update_status_lem :
      (app : Application) (s : State F)
      → do_update_status r app s
        ≡ (status_answer (client.update_status s.history app), then_call (update_status app) s)
  unfolding do_update_status call
  do_update_status_lem app s = bind-attempt _ (status_updated r) s ∙ status_updated_lem _ _

  unfoldable pub joined_error : Error → Result Outcome → Error
  joined_error e (ok _) = e
  joined_error e (err status_err) = join e status_err

  pub joined_lem :
      (e : Error) (result : Result Outcome) (s : State F)
      → joined r e result s ≡ (err (joined_error e result), s)
  unfolding joined joined_error fail
  joined_lem e (ok _) s = refl
  joined_lem e (err status_err) s = refl
