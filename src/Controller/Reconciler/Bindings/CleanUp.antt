-- ===== src/Controller/Reconciler/Bindings/CleanUp.antt =====
-- The clean-up at the end of reconcileRoleBindings, reconcileClusterRoleBindings and
-- reconcileCronJobs: the objects that are no longer wanted go.
use application_controller.Common.{
  true, false, not, ◌&&◌, none, some, List, [], ◌∷◌, map, lookup, insert, lookup-insert, elem,
  string_eq, ◌≡◌, refl, sym, ◌∙◌, ap, subst, arith, if◌then◌else◌,
}
use application_controller.Errors.{ok}
use application_controller.Kube.{NamespacedName, Kind, Object, name_eq}
use application_controller.Api.{Application}
use application_controller.Controller.State.{State, M, pure, ◌>>=◌}
use application_controller.Controller.State.Steps.{bind-ok, bind_ok_inversion}
use application_controller.Controller.Resource.{EventMap, ensure_no_resource}
use application_controller.Controller.Resource.Branches.{Removed, ensure_no_resource-Removed}
use application_controller.Controller.Reconciler.{SeenSet, Reordered, Reconciler}
use application_controller.Controller.Reconciler.Seen.{
  unseen, IsMap, insert-IsMap, mark, elem-unseen_names,
}
use application_controller.Controller.Reconciler.Zero.{zero_object}
use application_controller.Controller.Reconciler.Bindings.{
  listed_names, listed_cluster_names, range_now, clean_up,
}

module _ {F : Type 0} (r : Reconciler F) (app : Application) where
  open r use {client, library}

  -- The objects under the names are removed, one after the other.
  abbrev pub Cleaned : Kind → List NamespacedName → State F → State F → Type 0
  Cleaned k [] s t = t ≡ s
  Cleaned k (name ∷ names) s t =
      (m : State F) × Removed library client app k name s m × Cleaned k names m t

  clean_up-Cleaned :
      (k : Kind) (events : EventMap) (seen : SeenSet) (s : State F)
      → (clean_up r app k events seen s).0 ≡ ok tt
      → Cleaned k (unseen seen) s (clean_up r app k events seen s).1
  unfolding clean_up pure
  clean_up-Cleaned k events [] s h = refl
  clean_up-Cleaned k events ((name, true) ∷ names) s h = clean_up-Cleaned k events names s h
  clean_up-Cleaned k events ((name, false) ∷ names) s h =
      let first = ensure_no_resource library client app name k (zero_object k) events in
      let (o, ended, rest, run) =
        bind_ok_inversion first (λ _. clean_up r app k events names) s tt h in
      (
        (first s).1,
        ensure_no_resource-Removed library client app k name events (zero_object k) o s ended,
        subst (Cleaned k (unseen names) (first s).1) (sym (ap (λ p. p.1) run))
            (clean_up-Cleaned k events names (first s).1 rest),
      )

  -- The listed names that are not wanted, and no others, are removed, in some order.
  pub record Sweeps (k : Kind) (listed wanted : List NamespacedName) (s t : State F) : Type 0 where
    pub gone : List NamespacedName
    pub chosen : (n : NamespacedName) → elem n gone ≡ (elem n listed && not (elem n wanted))
    pub cleaned : Cleaned k gone s t

  module _ (k : Kind) (events : EventMap) where
    unfoldable pub clean_seen : SeenSet → M F (Unit {0})
    clean_seen seen = range_now r seen >>= λ names. clean_up r app k events names

    pub range-Sweeps :
        (listed wanted : List NamespacedName) (seen after : SeenSet) (t : State F)
        → IsMap seen
        → ((n : NamespacedName) → lookup n seen ≡ (if elem n listed then some false else none))
        → after ≡ mark wanted seen
        → (clean_seen after t).0 ≡ ok tt
        → Sweeps k listed wanted t (clean_seen after t).1
    unfolding clean_seen range_now pure
    range-Sweeps listed wanted seen after t unique held same h =
        let names = r.range_order t.history after in
        let run = bind-ok (range_now r after) (clean_up r app k events) t t names refl in
        record {
          gone = unseen names;
          chosen = λ n.
              elem-unseen_names n listed wanted seen names unique (held n)
                (subst (Reordered names) same (r.range_visits t.history after));
          cleaned =
              subst (Cleaned k (unseen names) t) (sym (ap (λ p. p.1) run))
                (clean_up-Cleaned k events names t (ap (λ p. p.0) (sym run) ∙ h));
        }

-- The names of listed objects, those of cluster-scoped ones without a namespace.
abbrev pub name_of : {k : Kind} → Object k → NamespacedName
name_of o = record { namespace = o.meta.namespace; name = o.meta.name }

abbrev pub cluster_name_of : {k : Kind} → Object k → NamespacedName
cluster_name_of o = record { namespace = ""; name = o.meta.name }

module _ {k : Kind} where
  pub lookup-listed_names :
      (n : NamespacedName) (os : List (Object k)) (seen : SeenSet)
      → lookup n (listed_names seen os)
        ≡ (if elem n (map name_of os) then some false else lookup n seen)
  unfolding listed_names elem
  lookup-listed_names n [] seen = refl
  lookup-listed_names n (o ∷ os) seen = ground (
    arith,
    lookup-listed_names n os (insert (name_of o) false seen),
    lookup-insert (name_of o) n false seen,
  )

  pub listed_names-IsMap :
      (os : List (Object k)) (seen : SeenSet) → IsMap seen → IsMap (listed_names seen os)
  unfolding listed_names
  listed_names-IsMap [] seen unique = unique
  listed_names-IsMap (o ∷ os) seen unique =
      listed_names-IsMap os (insert (name_of o) false seen)
        (insert-IsMap (name_of o) false seen unique)

  pub lookup-listed_cluster_names :
      (n : NamespacedName) (os : List (Object k)) (seen : SeenSet)
      → lookup n (listed_cluster_names seen os)
        ≡ (if elem n (map cluster_name_of os) then some false else lookup n seen)
  unfolding listed_cluster_names elem
  lookup-listed_cluster_names n [] seen = refl
  lookup-listed_cluster_names n (o ∷ os) seen = ground (
    arith,
    lookup-listed_cluster_names n os (insert (cluster_name_of o) false seen),
    lookup-insert (cluster_name_of o) n false seen,
  )

  pub listed_cluster_names-IsMap :
      (os : List (Object k)) (seen : SeenSet) → IsMap seen → IsMap (listed_cluster_names seen os)
  unfolding listed_cluster_names
  listed_cluster_names-IsMap [] seen unique = unique
  listed_cluster_names-IsMap (o ∷ os) seen unique =
      listed_cluster_names-IsMap os (insert (cluster_name_of o) false seen)
        (insert-IsMap (cluster_name_of o) false seen unique)
