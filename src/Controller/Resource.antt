-- ===== src/Controller/Resource.antt =====
-- reconcileResource, ensureResource and ensureNoResource of
-- internal/controller/application_controller.go. The object variable that the source passes by
-- pointer is an argument, and comes back as the result.
pub mod Rightful
pub mod Branches
pub mod Committed
use application_controller.Common.{
  String, Bool, true, false, not, ◌&&◌, Option, none, some, List, [], ◌∷◌, ◌==◌, string_eq, concat,
  if◌then◌else◌,
}
use application_controller.Errors.{Error, errorf, wrap_after, Result, ok, err}
use application_controller.Kube.{
  NamespacedName, ObjectMeta, Kind, Object, Spec, BindingSpec, RoleRef,
}
use application_controller.Api.{Application}
use application_controller.Controller.Ownership.{is_object_owned_by}
use application_controller.Controller.State.{
  Call, get, upsert, delete, OperationResult, created, updated, unchanged, Client, Library, M, pure,
  fail, lift, call, eventf, attempt, ◌>>=◌, ◌>>◌,
}

pub record EventMap : Type 0 where
  pub created : String
  pub updated : String
  pub upsert_failed : String
  pub deleted : String
  pub delete_failed : String

abbrev pub event_type_normal : String
event_type_normal = "Normal"

abbrev pub event_type_warning : String
event_type_warning = "Warning"

-- %s of the kind and the name
pub about : String → String → String → String
about before gvk name = concat (before ∷ gvk ∷ " " ∷ name ∷ [])

unfoldable pub with_meta : {k : Kind} → Object k → Result ObjectMeta → Result (Object k)
with_meta obj (ok m) = ok (record obj { meta = m })
with_meta obj (err e) = err e

-- The owner information: a controller reference, or annotations on a cluster-scoped object.
unfoldable pub set_owner :
    Library → Application → NamespacedName → (k : Kind) → Object k → Result (Object k)
unfolding with_meta
set_owner library app name k obj =
    if not (name.namespace == "")
    then with_meta obj (library.set_controller_reference app obj.meta)
    else ok (record obj { meta = library.set_owner_annotations app obj.meta })

-- obj.SetName(name.Name); obj.SetNamespace(name.Namespace)
abbrev pub set_name : NamespacedName → (k : Kind) → Object k → Object k
set_name name k obj =
    let meta = obj.meta in
    record obj { meta = record meta { name = name.name; namespace = name.namespace } }

-- fmt.Errorf("%s %s is not owned by the Application; refusing to reconcile!", gvk, name)
unfoldable pub refusal : String → String → Error
unfolding about
refusal gvk name =
    errorf
      (concat (about "" gvk name ∷ " is not owned by the Application; refusing to reconcile!" ∷ []))

module _ {F : Type 0} (library : Library) (client : Client) where
  -- r.Client.Get: whether the object was found, and the object.
  unfoldable pub found_or : (k : Kind) → Object k → Result (Object k) → M F (Bool × Object k)
  found_or k obj (ok o) = pure (true, o)
  found_or k obj (err e) = if client.is_not_found e then pure (false, obj) else fail e

  unfoldable pub fetch : (k : Kind) → NamespacedName → Object k → M F (Bool × Object k)
  unfolding found_or
  fetch k name obj = do
    answer ← attempt (call (get k name) (λ h. client.get h k name))
    found_or k obj answer

  -- controllerutil.CreateOrPatch with the mutate function of reconcileResource.
  unfoldable pub create_or_patch :
      Application
      → NamespacedName
      → (k : Kind) → Object k
      → (Object k → M F (Object k))
      → M F (OperationResult × Object k)
  unfolding set_owner
  create_or_patch app name k obj mutate_fn = do
    before ← call (get k name) (λ h. client.before h k obj)
    mutated ← mutate_fn before
    owned ← lift (set_owner library app name k mutated)
    call (upsert k owned) (λ h. client.commit h k owned)

  -- The event of a successful upsert.
  unfoldable pub report : EventMap → OperationResult → M F (Unit {0})
  report events created = eventf event_type_normal events.created
  report events updated = eventf event_type_normal events.updated
  report events unchanged = pure tt

  unfoldable pub upserted :
      (k : Kind) → String → EventMap → Result (OperationResult × Object k) → M F (Object k)
  unfolding report
  upserted k what events (err e) = do
    eventf event_type_warning events.upsert_failed
    fail (wrap_after e (concat ("failed to upsert " ∷ what ∷ ": " ∷ [])))
  upserted k what events (ok (result, obj)) = do report events result; pure obj

  deleted : (k : Kind) → String → EventMap → Object k → Result (Unit {0}) → M F (Object k)
  deleted k what events obj (err e) = do
    eventf event_type_warning events.delete_failed
    fail (wrap_after e (concat ("failed to delete " ∷ what ∷ ": " ∷ [])))
  deleted k what events obj (ok _) = pure obj

  unfoldable pub upsert_resource :
      Application
      → NamespacedName
      → (k : Kind) → Object k
      → (Object k → M F (Object k))
      → String
      → EventMap
      → M F (Object k)
  unfolding upserted
  upsert_resource app name k obj mutate_fn what events = do
    result ← attempt (create_or_patch app name k (set_name name k obj) mutate_fn)
    upserted k what events result

  delete_resource : (k : Kind) → Object k → String → EventMap → M F (Object k)
  unfolding deleted
  delete_resource k obj what events = do
    result ← attempt (call (delete k obj) (λ h. client.delete h k obj))
    deleted k what events obj result

  -- What follows the fetch. The source tests the ownership of a found object again before it writes:
  -- the object is the same, so that test holds whenever it is reached.
  pub act :
      Application
      → NamespacedName
      → (k : Kind) → (Object k → M F (Object k))
      → Bool
      → EventMap
      → String
      → Bool × Object k
      → M F (Object k)
  unfolding about refusal
  act app name k mutate_fn wanted events gvk (found, obj) =
      let owned = is_object_owned_by library k obj.meta app in
      let what = about "" gvk (library.name_string name) in
      if found && not owned
      then fail (refusal gvk (library.name_string name))
      else if wanted
      then upsert_resource app name k obj mutate_fn what events
      else if found
      then delete_resource k obj what events
      else pure obj

  unfoldable pub reconcile_resource :
      Application
      → NamespacedName
      → (k : Kind) → Object k
      → (Object k → M F (Object k))
      → Bool
      → EventMap
      → M F (Object k)
  unfolding act upsert_resource delete_resource
  reconcile_resource app name k obj mutate_fn wanted events = do
    gvk ← lift (library.gvk_for_object k)
    fetched ← fetch k name obj
    act app name k mutate_fn wanted events gvk fetched

  unfoldable pub ensure_resource :
      Application
      → NamespacedName
      → (k : Kind) → Object k
      → (Object k → M F (Object k))
      → EventMap
      → M F (Object k)
  ensure_resource app name k obj mutate_fn events =
      reconcile_resource app name k obj mutate_fn true events

  unfoldable pub ensure_no_resource :
      Application → NamespacedName → (k : Kind) → Object k → EventMap → M F (Object k)
  ensure_no_resource app name k obj events = reconcile_resource app name k obj pure false events
