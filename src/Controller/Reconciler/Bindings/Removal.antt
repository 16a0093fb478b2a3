-- ===== src/Controller/Reconciler/Bindings/Removal.antt =====
-- What the success of ensureNoClusterRoleBindings means.
use application_controller.Common.{String, List, [], ◌∷◌, ◌≡◌, refl, sym, ap, subst}
use application_controller.Errors.{ok}
use application_controller.Kube.{NamespacedName, Kind, Object}
use application_controller.Api.{Application}
use application_controller.Controller.Names.{application_name}
use application_controller.Controller.State.{list, State, call, pure}
use application_controller.Controller.State.Steps.{then_call, bind_ok_inversion}
use application_controller.Controller.Resource.{ensure_no_resource}
use application_controller.Controller.Resource.Branches.{Removed, ensure_no_resource-Removed}
use application_controller.Controller.Reconciler.{Reconciler, cluster_role_binding_events}
use application_controller.Controller.Reconciler.Bindings.{
  get_owned_cluster_role_bindings, remove_bindings, ensure_no_cluster_role_bindings,
}

module _ {F : Type 0} (r : Reconciler F) (app : Application) where
  open r use {client, library}

  -- One after the other, each of the bindings is removed, and there is no other call.
  abbrev pub AllRemoved : List (Object Kind.cluster_role_binding) → State F → State F → Type 0
  AllRemoved [] s t = t ≡ s
  AllRemoved (crb ∷ crbs) s t =
      (m : State F) × Removed library client app Kind.cluster_role_binding
        (record { namespace = ""; name = crb.meta.name }) s m
      × AllRemoved crbs m t

  abbrev pub owner_text : String
  owner_text = library.name_string (application_name app)

  remove_bindings-AllRemoved :
      (crbs : List (Object Kind.cluster_role_binding)) (s : State F)
      → (remove_bindings r app crbs s).0 ≡ ok tt
      → AllRemoved crbs s (remove_bindings r app crbs s).1
  unfolding remove_bindings pure
  remove_bindings-AllRemoved [] s h = refl
  remove_bindings-AllRemoved (crb ∷ crbs) s h =
      let name : NamespacedName = record { namespace = ""; name = crb.meta.name } in
      let first =
        ensure_no_resource library client app name Kind.cluster_role_binding crb
          cluster_role_binding_events in
      let (o, ended, rest, run) =
        bind_ok_inversion first (λ _. remove_bindings r app crbs) s tt h in
      (
        (first s).1,
        ensure_no_resource-Removed library client app _ name cluster_role_binding_events crb o s
            ended,
        subst (AllRemoved crbs (first s).1) (sym (ap (λ p. p.1) run))
            (remove_bindings-AllRemoved crbs (first s).1 rest),
      )

  pub ensure_no_cluster_role_bindings-AllRemoved :
      (s : State F)
      → (ensure_no_cluster_role_bindings r app s).0 ≡ ok tt
      → (crbs : List (Object Kind.cluster_role_binding)) × (client.list s.history
            Kind.cluster_role_binding "" owner_text
          ≡ ok crbs)
        × AllRemoved crbs
            (then_call (list Kind.cluster_role_binding "" owner_text) s)
            (ensure_no_cluster_role_bindings r app s).1
  unfolding ensure_no_cluster_role_bindings get_owned_cluster_role_bindings call
  ensure_no_cluster_role_bindings-AllRemoved s h =
      let (crbs, listed, rest, run) =
        bind_ok_inversion (get_owned_cluster_role_bindings r app) (remove_bindings r app) s tt h in
      (
        crbs,
        listed,
        subst (AllRemoved crbs _) (sym (ap (λ p. p.1) run))
            (remove_bindings-AllRemoved crbs _ rest),
      )
