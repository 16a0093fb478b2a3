-- ===== src/Controller/Reconciler/Bindings/Roles.antt =====
-- What reconcileRoleBindings and reconcileClusterRoleBindings do with the roles of an Application.
use application_controller.Common.{
  map, lookup, true, false, not, none, List, [], ◌∷◌, insert, ◌==◌, string_eq, ◌≡◌, refl, sym, ◌∙◌,
  ap, subst, if◌then◌else◌, if_true, if_false, then_holds, else_holds, arith, Bool-cases, inl, inr,
}
use application_controller.Errors.{Result, ok}
use application_controller.Kube.{NamespacedName, Kind, Object, name_eq}
use application_controller.Api.{
  Application, ScopedRoleRef, scope_or_default, role_binding_scope_namespace,
  role_binding_scope_cluster,
}
use application_controller.Gkutil.{from_role_ref, is_cluster_role}
use application_controller.Controller.Names.{role_binding_name}
use application_controller.Controller.State.{list, State, M, pure, lift, call, ◌>>=◌}
use application_controller.Controller.State.Steps.{
  then_call, if-true, if-false, bind-ok, bind-call, bind_ok_inversion,
}
use application_controller.Controller.Mutators.Bindings.{role_binding_mutate}
use application_controller.Controller.Resource.{ensure_resource}
use application_controller.Controller.Resource.Committed.{Committed, ensure_resource-Committed}
use application_controller.Controller.Reconciler.{SeenSet, Reconciler, role_binding_events}
use application_controller.Controller.Reconciler.Seen.{mark}
use application_controller.Controller.Reconciler.Zero.{zero_object}
use application_controller.Controller.Reconciler.Bindings.{
  listed_names, listed_cluster_names, bind_roles, bind_cluster_roles, clean_up_cluster,
  get_owned_cluster_role_bindings, reconcile_role_bindings, reconcile_cluster_role_bindings,
}
use application_controller.Controller.Reconciler.Bindings.CleanUp.{
  Sweeps, clean_seen, range-Sweeps, name_of, lookup-listed_names, listed_names-IsMap,
}
use application_controller.Controller.Reconciler.Bindings.Removal.{owner_text}

module _ {F : Type 0} (r : Reconciler F) (app : Application) where
  open r use {client, library}

  bind_cluster_roles-none :
      (role_ref : ScopedRoleRef) (roles : List ScopedRoleRef) (seen : SeenSet) (s : State F)
      → scope_or_default role_ref ≡ role_binding_scope_cluster
      → is_cluster_role (from_role_ref role_ref.role_ref) ≡ false
      → bind_cluster_roles r app (role_ref ∷ roles) seen s ≡ (ok none, s)
  unfolding bind_cluster_roles pure
  bind_cluster_roles-none role_ref roles seen s scope other =
      if-false (not (scope_or_default role_ref == role_binding_scope_cluster)) _ _ s
        (ap (λ x. not (x == role_binding_scope_cluster)) scope)
      ∙ if-true (not (is_cluster_role (from_role_ref role_ref.role_ref))) _ _ s (ap not other)

  -- If the first role of an Application has the scope Cluster and is no ClusterRole, then
  -- reconcileClusterRoleBindings reports success after the listing, its only call: no binding is
  -- made for the other roles, and none of the listed bindings is cleaned up.
  pub reconcile_cluster_role_bindings_abandons :
      (role_ref : ScopedRoleRef) (roles : List ScopedRoleRef)
      (crbs : List (Object Kind.cluster_role_binding)) (s : State F)
      → app.spec.roles ≡ role_ref ∷ roles
      → scope_or_default role_ref ≡ role_binding_scope_cluster
      → is_cluster_role (from_role_ref role_ref.role_ref) ≡ false
      → client.list s.history Kind.cluster_role_binding "" (owner_text r app) ≡ ok crbs
      → reconcile_cluster_role_bindings r app s
        ≡ (ok tt, then_call (list Kind.cluster_role_binding "" (owner_text r app)) s)
  unfolding reconcile_cluster_role_bindings get_owned_cluster_role_bindings clean_up_cluster pure
  reconcile_cluster_role_bindings_abandons role_ref roles crbs s has scope other listed =
      let t = then_call (list Kind.cluster_role_binding "" (owner_text r app)) s in
      bind-call _ _ _ s crbs listed
      ∙ bind-ok (bind_cluster_roles r app app.spec.roles (listed_cluster_names [] crbs))
          (clean_up_cluster r app) t t none
          (ap (λ rs. bind_cluster_roles r app rs (listed_cluster_names [] crbs) t) has
            ∙ bind_cluster_roles-none role_ref roles _ t scope other)

  -- A binding is created or patched for each role of the scope Namespace, one after the other.
  abbrev pub Bound : List ScopedRoleRef → State F → State F → Type 0
  Bound [] s t = t ≡ s
  Bound (role_ref ∷ roles) s t =
      if scope_or_default role_ref == role_binding_scope_namespace
      then ((m : State F) × (rb : Object Kind.role_binding) × (ensure_resource library client app
              (role_binding_name library.to_lower app role_ref.role_ref) Kind.role_binding
              (zero_object Kind.role_binding) (λ o. lift (role_binding_mutate app role_ref o))
              role_binding_events s
            ≡ (ok rb, m))
          × Committed {F = F} library client app
              (role_binding_name library.to_lower app role_ref.role_ref) Kind.role_binding
              (λ o. lift (role_binding_mutate app role_ref o)) rb m.history
          × Bound roles m t)
      else Bound roles s t

  -- The names of the bindings that the roles of the scope Namespace ask for.
  abbrev pub bound_names : List ScopedRoleRef → List NamespacedName
  bound_names [] = []
  bound_names (role_ref ∷ roles) =
      let rest = bound_names roles in
      if scope_or_default role_ref == role_binding_scope_namespace
      then role_binding_name library.to_lower app role_ref.role_ref ∷ rest
      else rest

  bind_first : ScopedRoleRef → M F (Object Kind.role_binding)
  bind_first role_ref =
      ensure_resource library client app (role_binding_name library.to_lower app role_ref.role_ref)
        Kind.role_binding (zero_object Kind.role_binding)
        (λ o. lift (role_binding_mutate app role_ref o)) role_binding_events

  bind_roles-first :
      (role_ref : ScopedRoleRef) (roles : List ScopedRoleRef) (seen : SeenSet) (s : State F)
      → (scope_or_default role_ref == role_binding_scope_namespace) ≡ true
      → bind_roles r app (role_ref ∷ roles) seen s
        ≡ (bind_first role_ref >>= λ _.
              bind_roles r app roles
                (insert (role_binding_name library.to_lower app role_ref.role_ref) true seen))
            s
  unfolding bind_roles bind_first
  bind_roles-first role_ref roles seen s namespaced =
      if-false (not (scope_or_default role_ref == role_binding_scope_namespace)) _ _ s
        (ap not namespaced)

  bind_roles-skip :
      (role_ref : ScopedRoleRef) (roles : List ScopedRoleRef) (seen : SeenSet) (s : State F)
      → (scope_or_default role_ref == role_binding_scope_namespace) ≡ false
      → bind_roles r app (role_ref ∷ roles) seen s ≡ bind_roles r app roles seen s
  unfolding bind_roles
  bind_roles-skip role_ref roles seen s other =
      if-true (not (scope_or_default role_ref == role_binding_scope_namespace)) _ _ s (ap not other)

  BoundAfter : List ScopedRoleRef → SeenSet → SeenSet → State F → Result SeenSet × State F → Type 0
  BoundAfter roles seen after s p = Bound roles s p.1 × (after ≡ mark (bound_names roles) seen)

  bind_no_roles :
      (seen after : SeenSet) (s : State F)
      → (bind_roles r app [] seen s).0 ≡ ok after
      → BoundAfter [] seen after s (bind_roles r app [] seen s)
  unfolding BoundAfter bind_roles pure
  bind_no_roles seen after s h = (refl, ground arith)

  bind_roles-Bound :
      (roles : List ScopedRoleRef) (seen after : SeenSet) (s : State F)
      → (bind_roles r app roles seen s).0 ≡ ok after
      → BoundAfter roles seen after s (bind_roles r app roles seen s)
  unfolding BoundAfter ensure_resource bind_first
  bind_roles-Bound [] seen after s h = bind_no_roles seen after s h
  bind_roles-Bound (role_ref ∷ roles) seen after s h =
      elim (Bool-cases (scope_or_default role_ref == role_binding_scope_namespace)) [
        | inl namespaced ↦
            let next =
              insert (role_binding_name library.to_lower app role_ref.role_ref) true seen in
            let first = bind_roles-first role_ref roles seen s namespaced in
            let (rb, ended, rest, run) =
              bind_ok_inversion (bind_first role_ref) (λ _. bind_roles r app roles next) s after
                (ap (λ p. p.0) (sym first) ∙ h) in
            let m = (bind_first role_ref s).1 in
            let (bound, seen_eq) = bind_roles-Bound roles next after m rest in
            let committed =
              ensure_resource-Committed library client app _ Kind.role_binding
                (λ o. lift (role_binding_mutate app role_ref o)) (zero_object Kind.role_binding) rb
                role_binding_events s ended in
            (
              then_holds _ _ _ namespaced (
                m,
                rb,
                ap (λ x. (x, m)) ended,
                committed,
                subst (Bound roles m) (sym (ap (λ p. p.1) (first ∙ run))) bound,
              ),
              seen_eq ∙ ap (λ names. mark names seen) (sym (if_true _ _ _ namespaced)),
            )
        | inr other ↦
            let skip = bind_roles-skip role_ref roles seen s other in
            let (bound, seen_eq) =
              bind_roles-Bound roles seen after s (ap (λ p. p.0) (sym skip) ∙ h) in
            (
              else_holds _ _ _ other (subst (Bound roles s) (sym (ap (λ p. p.1) skip)) bound),
              seen_eq ∙ ap (λ names. mark names seen) (sym (if_false _ _ _ other)),
            )
      ]

  -- If reconcileRoleBindings succeeds, then the RoleBindings of the Application were listed, and for
  -- each of its roles with the scope Namespace the API server created or patched the binding, in the
  -- order of the roles. After that each listed name that no such role has was removed, and no other:
  -- a read found nothing under the name, or what the Application owns, whose deletion was accepted.
  pub reconcile_role_bindings-Sweeps :
      (s : State F)
      → (reconcile_role_bindings r app s).0 ≡ ok tt
      → (rbs : List (Object Kind.role_binding)) × (t : State F) × (client.list s.history
            Kind.role_binding app.namespace app.name
          ≡ ok rbs)
        × Bound app.spec.roles (then_call (list Kind.role_binding app.namespace app.name) s) t
        × Sweeps r app Kind.role_binding
            (map name_of rbs)
            (bound_names app.spec.roles)
            t
            (reconcile_role_bindings r app s).1
  unfolding reconcile_role_bindings call clean_seen BoundAfter lookup
  reconcile_role_bindings-Sweeps s h =
      let (rbs, listed, h1, run1) =
        bind_ok_inversion (call (list Kind.role_binding app.namespace app.name) _) _ s tt h in
      let (seen, bound_ok, h2, run2) =
        bind_ok_inversion (bind_roles r app app.spec.roles (listed_names [] rbs)) _ _ tt h1 in
      let (bound, seen_eq) =
        bind_roles-Bound app.spec.roles (listed_names [] rbs) seen _ bound_ok in
      (
        rbs,
        _,
        listed,
        bound,
        subst (Sweeps r app Kind.role_binding (map name_of rbs) (bound_names app.spec.roles) _)
            (sym (ap (λ p. p.1) (run1 ∙ run2)))
            (range-Sweeps r app Kind.role_binding role_binding_events (map name_of rbs)
              (bound_names app.spec.roles) (listed_names [] rbs) seen _
              (listed_names-IsMap rbs [] tt) (λ n. lookup-listed_names n rbs []) seen_eq h2),
      )
