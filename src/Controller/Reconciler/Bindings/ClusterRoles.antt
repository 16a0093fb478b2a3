-- ===== src/Controller/Reconciler/Bindings/ClusterRoles.antt =====
-- What the success of reconcileClusterRoleBindings means, its early return included.
use application_controller.Common.{
  map, lookup, All, ◌++◌, ◌⊎◌, if_true, if_false, if◌then◌else◌, true, false, Option, none, some,
  List, [], ◌∷◌, insert, string_eq, ◌≡◌, refl, sym, ◌∙◌, ap, subst, inl, inr,
}
use application_controller.Errors.{Result, ok}
use application_controller.Kube.{NamespacedName, Kind, Object, name_eq}
use application_controller.Api.{Application, ScopedRoleRef}
use application_controller.Controller.Names.{cluster_role_binding_name}
use application_controller.Controller.State.{list, State, pure, lift, call}
use application_controller.Controller.State.Steps.{then_call, bind_ok_inversion}
use application_controller.Controller.Mutators.Bindings.{cluster_role_binding_mutate}
use application_controller.Controller.Resource.Committed.{Committed}
use application_controller.Controller.Reconciler.{SeenSet, Reconciler, cluster_role_binding_events}
use application_controller.Controller.Reconciler.Seen.{mark}
use application_controller.Controller.Reconciler.Bindings.{
  listed_cluster_names, bind_cluster_roles, clean_up_cluster, get_owned_cluster_role_bindings,
  reconcile_cluster_role_bindings,
}
use application_controller.Controller.Reconciler.Bindings.CleanUp.{
  Sweeps, clean_seen, range-Sweeps, cluster_name_of, lookup-listed_cluster_names,
  listed_cluster_names-IsMap,
}
use application_controller.Controller.Reconciler.Bindings.Removal.{owner_text}
use application_controller.Controller.Reconciler.Bindings.ClusterLoop.{
  is_wide, is_bindable, bind_first, BindsRoles, finished, skipped, abandoned, bound, Binds,
  bind_cluster_roles-Binds,
}

module _ {F : Type 0} (r : Reconciler F) (app : Application) where
  open r use {client, library}

  -- The roles that are to be bound in the whole cluster, and the names of their bindings.
  abbrev pub wide_roles : List ScopedRoleRef → List ScopedRoleRef
  wide_roles [] = []
  wide_roles (role_ref ∷ roles) =
      let rest = wide_roles roles in if is_wide role_ref then role_ref ∷ rest else rest

  abbrev pub cluster_names : List ScopedRoleRef → List NamespacedName
  cluster_names = map (λ role_ref. cluster_role_binding_name library.to_lower app role_ref.role_ref)

  -- The binding of each role is created or patched, one after the other.
  abbrev pub BoundWide : List ScopedRoleRef → State F → State F → Type 0
  BoundWide [] s t = t ≡ s
  BoundWide (role_ref ∷ roles) s t =
      (m : State F) × (crb : Object Kind.cluster_role_binding) × (bind_first r app role_ref s
        ≡ (ok crb, m))
      × Committed {F = F} library client app
          (cluster_role_binding_name library.to_lower app role_ref.role_ref)
          Kind.cluster_role_binding (λ o. lift (cluster_role_binding_mutate app role_ref o)) crb
          m.history
      × BoundWide roles m t

  abbrev pub AreBindable : List ScopedRoleRef → Type 0
  AreBindable = All (λ role_ref. is_bindable role_ref ≡ true)

  -- The first of the roles that is no ClusterRole ends it: those before it have been bound.
  pub record IsAbandoned (roles : List ScopedRoleRef) (s t : State F) : Type 0 where
    pub before : List ScopedRoleRef
    pub other : ScopedRoleRef
    pub rest : List ScopedRoleRef
    pub split : roles ≡ before ++ other ∷ rest
    pub bindable : AreBindable before
    pub unbindable : is_bindable other ≡ false
    pub bound : BoundWide before s t

  abbrev Ends : List ScopedRoleRef → SeenSet → Option SeenSet → State F → State F → Type 0
  Ends roles seen none s t = IsAbandoned roles s t
  Ends roles seen (some after) s t =
      AreBindable roles × BoundWide roles s t × (after ≡ mark (cluster_names roles) seen)

  roles_outcome :
      (role_ref : ScopedRoleRef) (roles : List ScopedRoleRef) (seen : SeenSet)
      (after : Option SeenSet) (s m t : State F) (crb : Object Kind.cluster_role_binding)
      → is_bindable role_ref ≡ true
      → bind_first r app role_ref s ≡ (ok crb, m)
      → Committed {F = F} library client app
          (cluster_role_binding_name library.to_lower app role_ref.role_ref)
          Kind.cluster_role_binding
          (λ o. lift (cluster_role_binding_mutate app role_ref o))
          crb
          m.history
      → Ends roles
          (insert (cluster_role_binding_name library.to_lower app role_ref.role_ref) true seen)
          after
          m
          t
      → Ends (role_ref ∷ roles) seen after s t
  roles_outcome role_ref roles seen none s m t crb bindable ended committed rest = record {
    before = role_ref ∷ rest.before;
    other = rest.other;
    rest = rest.rest;
    split = ap (λ more. role_ref ∷ more) rest.split;
    bindable = (bindable, rest.bindable);
    unbindable = rest.unbindable;
    bound = (m, crb, ended, committed, rest.bound);
  }
  roles_outcome role_ref roles seen (some after) s m t crb bindable ended committed rest =
      ((bindable, rest.0), (m, crb, ended, committed, rest.1), rest.2)

  BindsRoles-Ends :
      (roles : List ScopedRoleRef) (seen : SeenSet) (after : Option SeenSet) (s t : State F)
      → BindsRoles r app roles seen after s t
      → Ends (wide_roles roles) seen after s t
  BindsRoles-Ends _ _ _ _ _ (finished seen s) = (tt, refl, refl)
  BindsRoles-Ends _ _ _ _ _ (skipped role_ref roles seen after s t narrow rest) =
      subst (λ ws. Ends ws seen after s t) (sym (if_false _ _ _ narrow))
        (BindsRoles-Ends roles seen after s t rest)
  BindsRoles-Ends _ _ _ _ _ (abandoned role_ref roles seen s wide other) = record {
    before = [];
    other = role_ref;
    rest = wide_roles roles;
    split = if_true _ _ _ wide;
    bindable = tt;
    unbindable = other;
    bound = refl;
  }
  BindsRoles-Ends _ _ _ _ _
        (bound role_ref roles seen after s m t crb wide bindable ended committed rest) =
      subst (λ ws. Ends ws seen after s t) (sym (if_true _ _ _ wide))
        (roles_outcome role_ref (wide_roles roles) seen after s m t crb bindable ended committed
          (BindsRoles-Ends roles _ after m t rest))

  -- The two ways to succeed: all roles are bound and the other listed bindings are removed; or a role
  -- is no ClusterRole.
  abbrev pub Succeeds : List (Object Kind.cluster_role_binding) → State F → State F → Type 0
  Succeeds crbs s u =
      (AreBindable (wide_roles app.spec.roles)
        × (t : State F) × BoundWide (wide_roles app.spec.roles) s t
        × Sweeps r app Kind.cluster_role_binding (map cluster_name_of crbs)
            (cluster_names (wide_roles app.spec.roles)) t u)
      ⊎ IsAbandoned (wide_roles app.spec.roles) s u

  Cleans : List (Object Kind.cluster_role_binding) → State F → Result (Unit {0}) × State F → Type 0
  Cleans crbs s p = Succeeds crbs s p.1

  clean_up_cluster-Succeeds :
      (crbs : List (Object Kind.cluster_role_binding)) (after : Option SeenSet) (s t : State F)
      → Ends (wide_roles app.spec.roles) (listed_cluster_names [] crbs) after s t
      → (clean_up_cluster r app after t).0 ≡ ok tt
      → Cleans crbs s (clean_up_cluster r app after t)
  unfolding Cleans clean_up_cluster clean_seen pure lookup
  clean_up_cluster-Succeeds crbs none s t ends h = inr ends
  clean_up_cluster-Succeeds crbs (some seen) s t ends h = inl (
    ends.0,
    t,
    ends.1,
    range-Sweeps r app Kind.cluster_role_binding cluster_role_binding_events
        (map cluster_name_of crbs) (cluster_names (wide_roles app.spec.roles))
        (listed_cluster_names [] crbs) seen t (listed_cluster_names-IsMap crbs [] tt)
        (λ n. lookup-listed_cluster_names n crbs []) ends.2 h,
  )

  -- If reconcileClusterRoleBindings succeeds, then the ClusterRoleBindings of the Application were
  -- listed, and one of two things is true of its roles of the scope Cluster. Either all are
  -- ClusterRoles: then for each the API server created or patched the binding, in their order, and
  -- after that each listed name that none of them has was removed, and no other: a read found nothing
  -- under the name, or what the Application owns, whose deletion was accepted. Or one is no
  -- ClusterRole: then those before the first such role were bound, and nothing else was done.
  pub reconcile_cluster_role_bindings-Succeeds :
      (s : State F)
      → (reconcile_cluster_role_bindings r app s).0 ≡ ok tt
      → (crbs : List (Object Kind.cluster_role_binding)) × (client.list s.history
            Kind.cluster_role_binding ""
            (owner_text r app)
          ≡ ok crbs)
        × Succeeds crbs
            (then_call (list Kind.cluster_role_binding "" (owner_text r app)) s)
            (reconcile_cluster_role_bindings r app s).1
  unfolding reconcile_cluster_role_bindings get_owned_cluster_role_bindings call Binds Cleans
  reconcile_cluster_role_bindings-Succeeds s h =
      let (crbs, listed, h1, run1) =
        bind_ok_inversion
          (call (list Kind.cluster_role_binding "" (owner_text r app))
            (λ h. client.list h Kind.cluster_role_binding "" (owner_text r app)))
          _ s tt h in
      let (after, bound_ok, h2, run2) =
        bind_ok_inversion (bind_cluster_roles r app app.spec.roles (listed_cluster_names [] crbs)) _
          _ tt h1 in
      let ends = BindsRoles-Ends app.spec.roles (listed_cluster_names [] crbs) after _ _ (
        bind_cluster_roles-Binds r app app.spec.roles (listed_cluster_names [] crbs) after _
          bound_ok) in
      (
        crbs,
        listed,
        subst (Succeeds crbs _) (sym (ap (λ p. p.1) (run1 ∙ run2)))
            (clean_up_cluster-Succeeds crbs after _ _ ends h2),
      )
