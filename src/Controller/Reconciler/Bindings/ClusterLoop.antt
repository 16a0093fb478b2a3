-- ===== src/Controller/Reconciler/Bindings/ClusterLoop.antt =====
-- The loop of reconcileClusterRoleBindings over the roles of an Application.
use application_controller.Common.{
  Bool, true, false, not, Option, none, some, List, [], ◌∷◌, insert, ◌==◌, string_eq, ◌≡◌, sym, ◌∙◌,
  ap, subst, arith, Bool-cases, inl, inr,
}
use application_controller.Errors.{Result, ok}
use application_controller.Kube.{Kind, Object, name_eq}
use application_controller.Api.{
  Application, ScopedRoleRef, scope_or_default, role_binding_scope_cluster,
}
use application_controller.Gkutil.{from_role_ref, is_cluster_role}
use application_controller.Controller.Names.{cluster_role_binding_name}
use application_controller.Controller.State.{State, M, pure, lift, ◌>>=◌}
use application_controller.Controller.State.Steps.{if-true, if-false, bind_ok_inversion}
use application_controller.Controller.Mutators.Bindings.{cluster_role_binding_mutate}
use application_controller.Controller.Resource.{ensure_resource}
use application_controller.Controller.Resource.Committed.{Committed, ensure_resource-Committed}
use application_controller.Controller.Reconciler.{SeenSet, Reconciler, cluster_role_binding_events}
use application_controller.Controller.Reconciler.Zero.{zero_object}
use application_controller.Controller.Reconciler.Bindings.{bind_cluster_roles}

-- Whether a role is to be bound in the whole cluster, and whether it can be.
abbrev pub is_wide : ScopedRoleRef → Bool
is_wide role_ref = scope_or_default role_ref == role_binding_scope_cluster

abbrev pub is_bindable : ScopedRoleRef → Bool
is_bindable role_ref = is_cluster_role (from_role_ref role_ref.role_ref)

module _ {F : Type 0} (r : Reconciler F) (app : Application) where
  open r use {client, library}

  abbrev pub bind_first : ScopedRoleRef → M F (Object Kind.cluster_role_binding)
  bind_first role_ref =
      ensure_resource library client app
        (cluster_role_binding_name library.to_lower app role_ref.role_ref) Kind.cluster_role_binding
        (zero_object Kind.cluster_role_binding)
        (λ crb. lift (cluster_role_binding_mutate app role_ref crb)) cluster_role_binding_events

  -- The roles are gone through in their order: one of another scope is skipped, the binding of a
  -- ClusterRole is created or patched, and any other role ends the loop and the clean-up is left out.
  pub data BindsRoles
      : List ScopedRoleRef → SeenSet → Option SeenSet → State F → State F → Type 0 where
    finished : (seen : SeenSet) (s : State F) → BindsRoles [] seen (some seen) s s
    skipped :
        (role_ref : ScopedRoleRef) (roles : List ScopedRoleRef) (seen : SeenSet)
        (after : Option SeenSet) (s t : State F)
        → is_wide role_ref ≡ false
        → BindsRoles roles seen after s t
        → BindsRoles (role_ref ∷ roles) seen after s t
    abandoned :
        (role_ref : ScopedRoleRef) (roles : List ScopedRoleRef) (seen : SeenSet) (s : State F)
        → is_wide role_ref ≡ true
        → is_bindable role_ref ≡ false
        → BindsRoles (role_ref ∷ roles) seen none s s
    bound :
        (role_ref : ScopedRoleRef) (roles : List ScopedRoleRef) (seen : SeenSet)
        (after : Option SeenSet) (s m t : State F) (crb : Object Kind.cluster_role_binding)
        → is_wide role_ref ≡ true
        → is_bindable role_ref ≡ true
        → bind_first role_ref s ≡ (ok crb, m)
        → Committed {F = F} library client app
            (cluster_role_binding_name library.to_lower app role_ref.role_ref)
            Kind.cluster_role_binding
            (λ o. lift (cluster_role_binding_mutate app role_ref o))
            crb
            m.history
        → BindsRoles roles
            (insert (cluster_role_binding_name library.to_lower app role_ref.role_ref) true seen)
            after
            m
            t
        → BindsRoles (role_ref ∷ roles) seen after s t

  module _ (role_ref : ScopedRoleRef) (roles : List ScopedRoleRef) (seen : SeenSet)
      (s : State F) where
    abbrev next_seen : SeenSet
    next_seen = insert (cluster_role_binding_name library.to_lower app role_ref.role_ref) true seen

    bind_cluster_roles-skip :
        is_wide role_ref ≡ false
        → bind_cluster_roles r app (role_ref ∷ roles) seen s ≡ bind_cluster_roles r app roles seen s
    unfolding bind_cluster_roles
    bind_cluster_roles-skip narrow = if-true (not (is_wide role_ref)) _ _ s (ap not narrow)

    bind_cluster_roles-abandon :
        is_wide role_ref ≡ true
        → is_bindable role_ref ≡ false
        → bind_cluster_roles r app (role_ref ∷ roles) seen s ≡ (ok none, s)
    unfolding bind_cluster_roles pure
    bind_cluster_roles-abandon wide other =
        if-false (not (is_wide role_ref)) _ _ s (ap not wide)
        ∙ if-true (not (is_bindable role_ref)) _ _ s (ap not other)

    bind_cluster_roles-first :
        is_wide role_ref ≡ true
        → is_bindable role_ref ≡ true
        → bind_cluster_roles r app (role_ref ∷ roles) seen s
          ≡ (bind_first role_ref >>= λ _. bind_cluster_roles r app roles next_seen) s
    unfolding bind_cluster_roles
    bind_cluster_roles-first wide bindable =
        if-false (not (is_wide role_ref)) _ _ s (ap not wide)
        ∙ if-false (not (is_bindable role_ref)) _ _ s (ap not bindable)

  -- The relation for what a run of the loop came to.
  unfoldable pub Binds :
      List ScopedRoleRef
      → SeenSet
      → Option SeenSet
      → State F
      → Result (Option SeenSet) × State F
      → Type 0
  Binds roles seen after s p = BindsRoles roles seen after s p.1

  ended-finished :
      (seen : SeenSet) (after : Option SeenSet) (s : State F)
      → (bind_cluster_roles r app [] seen s).0 ≡ ok after
      → Binds [] seen after s (bind_cluster_roles r app [] seen s)
  unfolding Binds bind_cluster_roles pure
  ended-finished seen after s h =
      let same : some seen ≡ after = ground (arith, h) in
      subst (λ a. BindsRoles [] seen a s s) same (finished seen s)

  pub bind_cluster_roles-Binds :
      (roles : List ScopedRoleRef) (seen : SeenSet) (after : Option SeenSet) (s : State F)
      → (bind_cluster_roles r app roles seen s).0 ≡ ok after
      → Binds roles seen after s (bind_cluster_roles r app roles seen s)
  unfolding Binds ensure_resource
  bind_cluster_roles-Binds [] seen after s h = ended-finished seen after s h
  bind_cluster_roles-Binds (role_ref ∷ roles) seen after s h =
      elim (Bool-cases (is_wide role_ref)) [
        | inr narrow ↦
            let skip = bind_cluster_roles-skip role_ref roles seen s narrow in
            let rest = bind_cluster_roles-Binds roles seen after s (ap (λ p. p.0) (sym skip) ∙ h) in
            subst (Binds (role_ref ∷ roles) seen after s) (sym skip)
              (skipped role_ref roles seen after s _ narrow rest)
        | inl wide ↦ elim (Bool-cases (is_bindable role_ref)) [
          | inr other ↦
              let abandon = bind_cluster_roles-abandon role_ref roles seen s wide other in
              let nothing : ok none ≡ ok after = ap (λ p. p.0) (sym abandon) ∙ h in
              let same : none ≡ after = ground (arith, nothing) in
              subst (Binds (role_ref ∷ roles) seen after s) (sym abandon) (
                subst (λ a. BindsRoles (role_ref ∷ roles) seen a s s) same
                  (abandoned role_ref roles seen s wide other))
          | inl bindable ↦
              let next = next_seen role_ref roles seen s in
              let first = bind_cluster_roles-first role_ref roles seen s wide bindable in
              let (crb, ended, rest, run) =
                bind_ok_inversion (bind_first role_ref) (λ _. bind_cluster_roles r app roles next) s
                  after (ap (λ p. p.0) (sym first) ∙ h) in
              let m = (bind_first role_ref s).1 in
              let more = bind_cluster_roles-Binds roles next after m rest in
              let committed =
                ensure_resource-Committed library client app
                  (cluster_role_binding_name library.to_lower app role_ref.role_ref)
                  Kind.cluster_role_binding (λ o. lift (cluster_role_binding_mutate app role_ref o))
                  (zero_object Kind.cluster_role_binding) crb cluster_role_binding_events s ended in
              subst (Binds (role_ref ∷ roles) seen after s) (sym (first ∙ run)) (
                bound role_ref roles seen after s m _ crb wide bindable (ap (λ x. (x, m)) ended)
                  committed more)
        ]
      ]
