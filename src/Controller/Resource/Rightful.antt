-- ===== src/Controller/Resource/Rightful.antt =====
-- reconcileResource deletes only what the Application owns, and what it writes carries the
-- Application's ownership.
use application_controller.Common.{
  String, Bool, true, false, not, ◌&&◌, ◌==◌, string_eq, ◌≡◌, arith, ◌⊎◌, inl, inr, Bool-cases,
  subst,
}
use application_controller.Errors.{Result, ok, err}
use application_controller.Kube.{NamespacedName, ObjectMeta, Kind, Object, Spec}
use application_controller.Api.{Application}
use application_controller.Controller.Ownership.{is_object_owned_by}
use application_controller.Controller.State.{
  Call, get_application, get, list, upsert, delete, update, update_status, event, OperationResult,
  created, updated, unchanged, Client, Library, M, pure,
}
use application_controller.Controller.State.Keeps.{
  Keeps, Gives, Keeps-Gives, Gives-bind, Keeps-pure, Keeps-fail, Keeps-lift, Keeps-call,
  Keeps-attempt, Keeps-if, Keeps-eventf, Keeps-bind, Keeps-bind_lift, keeps_rules,
}
use application_controller.Controller.Resource.{
  EventMap, fetch, found_or, set_owner, create_or_patch, upserted, deleted, upsert_resource,
  delete_resource, act, reconcile_resource, ensure_resource, ensure_no_resource,
}

module _ (library : Library) (app : Application) where
  -- The metadata carries the Application's ownership: a controller reference, or annotations.
  abbrev pub IsStamped : ObjectMeta → Type 0
  IsStamped meta =
      ((m : ObjectMeta) × (library.set_controller_reference app m ≡ ok meta))
      ⊎ ((m : ObjectMeta) × (meta ≡ library.set_owner_annotations app m))

  -- A deleted object is one that the Application owns; a written object carries its ownership, and
  -- its spec fits.
  abbrev pub IsSound : ((k : Kind) → Spec k → Type 0) → Call → Type 0
  IsSound Fits (delete k o) = is_object_owned_by library k o.meta app ≡ true
  IsSound Fits (upsert k o) = IsStamped o.meta × Fits k o.spec
  IsSound Fits (get_application _) = Unit
  IsSound Fits (get _ _) = Unit
  IsSound Fits (list _ _ _) = Unit
  IsSound Fits (update _) = Unit
  IsSound Fits (update_status _) = Unit
  IsSound Fits (event _ _) = Unit

  -- The same with any spec.
  abbrev pub AnySpec : (k : Kind) → Spec k → Type 0
  AnySpec k spec = Unit

  abbrev pub IsRightful : Call → Type 0
  IsRightful = IsSound AnySpec

  set_owner-IsStamped :
      (name : NamespacedName) (k : Kind) (obj : Object k) {o : Object k}
      → set_owner library app name k obj ≡ ok o
      → IsStamped o.meta
  unfolding set_owner
  set_owner-IsStamped name k obj h = elim (Bool-cases (name.namespace == "")) [
    | inl cluster ↦ inr (obj.meta, ground arith)
    | inr namespaced ↦ inl (obj.meta, ground arith)
  ]

  set_owner-spec :
      (name : NamespacedName) (k : Kind) (obj : Object k) {o : Object k}
      → set_owner library app name k obj ≡ ok o
      → obj.spec ≡ o.spec
  unfolding set_owner
  set_owner-spec name k obj h = elim (Bool-cases (name.namespace == "")) [
    | inl cluster ↦ ground arith
    | inr namespaced ↦ ground arith
  ]

module _ {F : Type 0} (H : F → Type 0) (Fits : (k : Kind) → Spec k → Type 0) (library : Library)
    (client : Client) (app : Application) where
  found_or-Keeps :
      (k : Kind) (obj : Object k) (r : Result (Object k))
      → Keeps H (IsSound library app Fits) (found_or library client k obj r)
  unfolding found_or
  found_or-Keeps k obj (ok o) = Keeps-pure (true, o)
  found_or-Keeps k obj (err e) = search keeps_rules

  fetch-Keeps :
      (k : Kind) (name : NamespacedName) (obj : Object k)
      → Keeps H (IsSound library app Fits) (fetch library client k name obj)
  unfolding fetch
  fetch-Keeps k name obj =
      Keeps-bind _ _ (Keeps-attempt _ (Keeps-call (get k name) _ tt)) (found_or-Keeps k obj)

  create_or_patch-Keeps :
      (name : NamespacedName) (k : Kind) (obj : Object k) (mutate_fn : Object k → M F (Object k))
      → ((o : Object k) → Gives H (IsSound library app Fits) (λ o. Fits k o.spec) (mutate_fn o))
      → Keeps H (IsSound library app Fits) (create_or_patch library client app name k obj mutate_fn)
  unfolding create_or_patch
  create_or_patch-Keeps name k obj mutate_fn gives =
      Keeps-bind _ _ (Keeps-call (get k name) _ tt) λ before.
        Gives-bind _ _ _ (gives before) λ mutated fit. Keeps-bind_lift _ _ λ owned e.
          Keeps-call (upsert k owned) _ (
            set_owner-IsStamped library app name k mutated e,
            subst (Fits k) (set_owner-spec library app name k mutated e) fit,
          )

  upserted-Keeps :
      (k : Kind) (what : String) (events : EventMap) (r : Result (OperationResult × Object k))
      → Keeps H (IsSound library app Fits) (upserted library client k what events r)
  unfolding upserted
  upserted-Keeps k what events (err e) = Keeps-bind _ _ (Keeps-eventf _ _ tt) λ _. Keeps-fail _
  upserted-Keeps k what events (ok (created, o)) =
      Keeps-bind _ _ (Keeps-eventf _ _ tt) λ _. Keeps-pure _
  upserted-Keeps k what events (ok (updated, o)) =
      Keeps-bind _ _ (Keeps-eventf _ _ tt) λ _. Keeps-pure _
  upserted-Keeps k what events (ok (unchanged, o)) = Keeps-bind _ _ (Keeps-pure _) λ _. Keeps-pure _

  deleted-Keeps :
      (k : Kind) (what : String) (events : EventMap) (obj : Object k) (r : Result (Unit {0}))
      → Keeps H (IsSound library app Fits) (deleted library client k what events obj r)
  unfolding deleted
  deleted-Keeps k what events obj (err e) = Keeps-bind _ _ (Keeps-eventf _ _ tt) λ _. Keeps-fail _
  deleted-Keeps k what events obj (ok _) = Keeps-pure obj

  -- The guards of reconcileResource let a found object through only if it is owned.
  act-Keeps :
      (name : NamespacedName) (k : Kind) (mutate_fn : Object k → M F (Object k)) (wanted : Bool)
      (events : EventMap) (gvk : String) (fetched : Bool × Object k)
      → (wanted ≡ true
          → (o : Object k) → Gives H (IsSound library app Fits) (λ o. Fits k o.spec) (mutate_fn o))
      → Keeps H
          (IsSound library app Fits)
          (act library client app name k mutate_fn wanted events gvk fetched)
  unfolding act upsert_resource delete_resource
  act-Keeps name k mutate_fn wanted events gvk (found, obj) keeps =
      Keeps-if (found && not (is_object_owned_by library k obj.meta app)) _ _ (λ _. Keeps-fail _)
        λ owned.
          Keeps-if wanted _ _
            (λ asked.
              Keeps-bind _ _
                (Keeps-attempt _ (create_or_patch-Keeps name k _ mutate_fn (keeps asked)))
                (upserted-Keeps k _ events))
            λ _.
              Keeps-if found _ _
                (λ present.
                  Keeps-bind _ _ (Keeps-attempt _ (Keeps-call (delete k obj) _ (ground arith)))
                    (deleted-Keeps k _ events obj))
                (λ _. Keeps-pure obj)

  pub reconcile_resource-Keeps :
      (name : NamespacedName) (k : Kind) (obj : Object k) (mutate_fn : Object k → M F (Object k))
      (wanted : Bool) (events : EventMap)
      → (wanted ≡ true
          → (o : Object k) → Gives H (IsSound library app Fits) (λ o. Fits k o.spec) (mutate_fn o))
      → Keeps H
          (IsSound library app Fits)
          (reconcile_resource library client app name k obj mutate_fn wanted events)
  unfolding reconcile_resource
  reconcile_resource-Keeps name k obj mutate_fn wanted events keeps =
      Keeps-bind _ _ (Keeps-lift (library.gvk_for_object k)) λ gvk.
        Keeps-bind _ _ (fetch-Keeps k name obj)
          λ fetched. act-Keeps name k mutate_fn wanted events gvk fetched keeps

  pub ensure_resource-Keeps :
      (name : NamespacedName) (k : Kind) (obj : Object k) (mutate_fn : Object k → M F (Object k))
      (events : EventMap)
      → ((o : Object k) → Gives H (IsSound library app Fits) (λ o. Fits k o.spec) (mutate_fn o))
      → Keeps H
          (IsSound library app Fits)
          (ensure_resource library client app name k obj mutate_fn events)
  unfolding ensure_resource
  ensure_resource-Keeps name k obj mutate_fn events gives =
      reconcile_resource-Keeps name k obj mutate_fn true events λ _. gives

  pub ensure_no_resource-Keeps :
      (name : NamespacedName) (k : Kind) (obj : Object k) (events : EventMap)
      → Keeps H (IsSound library app Fits) (ensure_no_resource library client app name k obj events)
  unfolding ensure_no_resource
  ensure_no_resource-Keeps name k obj events =
      reconcile_resource-Keeps name k obj pure false events λ never. absurd (ground (arith, never))

module _ {F : Type 0} (library : Library) (client : Client) (app : Application) where
  -- If the calls before were rightful, and the mutate function makes only rightful calls, then
  -- after reconcileResource, wanted or not, successful or not, every object that has been deleted
  -- is one that the Application owns by isObjectOwnedBy, and every object handed to the API server
  -- to be created or patched carries the Application's controller reference or owner annotations.
  pub reconcile_resource-IsRightful :
      (name : NamespacedName) (k : Kind) (obj : Object k) (mutate_fn : Object k → M F (Object k))
      (wanted : Bool) (events : EventMap)
      → ((o : Object k) → Keeps (λ _. Unit) (IsRightful library app) (mutate_fn o))
      → Keeps
          (λ _. Unit)
          (IsRightful library app)
          (reconcile_resource library client app name k obj mutate_fn wanted events)
  reconcile_resource-IsRightful name k obj mutate_fn wanted events keeps =
      reconcile_resource-Keeps (λ _. Unit) (λ k spec. Unit) library client app name k obj mutate_fn
        wanted events λ _ o. Keeps-Gives _ _ (λ _. tt) (keeps o)
