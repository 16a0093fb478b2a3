-- ===== src/Controller/State.antt =====
-- What the reconciler works on: the calls that it has made to the API server and the event
-- recorder, latest first, and the state of its image finder. The answers of the API server are
-- those of a Client, which may depend on the calls so far in any way; other library functions
-- are those of a Library.
pub mod Keeps
pub mod Steps
use application_controller.Common.{String, Bool, Option, List, ◌∷◌}
use application_controller.Errors.{Error, Result, ok, err}
use application_controller.Kube.{
  NamespacedName, GroupKind, OwnerReference, ObjectMeta, Condition, Kind, Object, Value,
}
use application_controller.Api.{ImageSpec, Application}
use application_controller.Images.ImageRef.{ImageRef}

pub data Call : Type 0 where
  -- client.Get of the Application, and of an owned object
  get_application : NamespacedName → Call
  get : Kind → NamespacedName → Call
  -- client.List of the owned objects: the namespace, empty for all, and the value of the owner index
  list : Kind → String → String → Call
  -- CreateOrPatch, with the object that its mutate function returned
  upsert : (k : Kind) → Object k → Call
  delete : (k : Kind) → Object k → Call
  update : Application → Call
  update_status : Application → Call
  -- Recorder.Eventf: the event's type and reason
  event : String → String → Call

pub data OperationResult : Type 0 where
  created updated unchanged : OperationResult

-- The API server and the controller-runtime client. CreateOrPatch reads the object and hands it,
-- or the given object if there is none, to the mutate function (`before`), and then creates or
-- patches it as mutated (`commit`).
pub record Client : Type 0 where
  pub get_application : List Call → NamespacedName → Result Application
  pub get : List Call → (k : Kind) → NamespacedName → Result (Object k)
  pub list : List Call → (k : Kind) → String → String → Result (List (Object k))
  pub before : List Call → (k : Kind) → Object k → Result (Object k)
  pub commit : List Call → (k : Kind) → Object k → Result (OperationResult × Object k)
  pub delete : List Call → (k : Kind) → Object k → Result (Unit {0})
  pub update : List Call → Application → Result Application
  pub update_status : List Call → Application → Result Application
  pub is_not_found : Error → Bool
  pub is_conflict : Error → Bool

-- Functions of apimachinery, controller-runtime, operator-lib, Kubernetes and Go's library.
pub record Library : Type 0 where
  -- apiutil.GVKForObject, as text; apiutil.IsObjectNamespaced, `none` for its error
  pub gvk_for_object : Kind → Result String
  pub is_object_namespaced : Kind → Option Bool
  -- metav1.GetControllerOf
  pub get_controller_of : ObjectMeta → Option OwnerReference
  -- the group of schema.ParseGroupVersion, `none` for its error; schema.ParseGroupKind
  pub parse_group_version : String → Option String
  pub parse_group_kind : String → GroupKind
  -- owner.GetObjectKind() == schema.EmptyObjectKind, and the group of the owner's kind
  pub is_empty_object_kind : Application → Bool
  pub owner_group : Application → String
  -- osdkHandler.TypeAnnotation, NamespacedNameAnnotation and SetOwnerAnnotations
  pub type_annotation : String
  pub namespaced_name_annotation : String
  pub set_owner_annotations : Application → ObjectMeta → ObjectMeta
  -- controllerutil
  pub set_controller_reference : Application → ObjectMeta → Result ObjectMeta
  pub contains_finalizer : Application → String → Bool
  pub add_finalizer : Application → String → Application
  pub remove_finalizer : Application → String → Application
  -- meta.SetStatusCondition and FindStatusCondition
  pub set_status_condition : List Condition → Condition → List Condition
  pub find_status_condition : List Condition → String → Option Condition
  -- SetObjectDefaults_Deployment, metav1.Now, types.NamespacedName.String, strings.ToLower
  pub set_object_defaults_deployment : Object Kind.deployment → Object Kind.deployment
  pub now : List Call → Value
  pub name_string : NamespacedName → String
  pub to_lower : String → String

pub record State (F : Type 0) : Type 0 where
  pub history : List Call
  pub finder : F

-- images.ImageFinder, as a method on its state.
abbrev pub ImageFinder : Type 0 → Type 0
ImageFinder F = ImageSpec → F → Result ImageRef × F

-- A method that may fail; what it did before an error stays done.
abbrev pub M : Type 0 → Type 0 → Type 0
M F A = State F → Result A × State F

module _ {F : Type 0} where
  unfoldable pub pure : {A : Type 0} → A → M F A
  pure a s = (ok a, s)

  unfoldable pub fail : {A : Type 0} → Error → M F A
  fail e s = (err e, s)

  unfoldable pub lift : {A : Type 0} → Result A → M F A
  lift r s = (r, s)

  continue : {A B : Type 0} → Result A → (A → M F B) → M F B
  continue (ok a) f s = f a s
  continue (err e) f s = (err e, s)

  infixl 10 ◌>>=◌ ◌>>◌
  unfoldable pub ◌>>=◌ : {A B : Type 0} → M F A → (A → M F B) → M F B
  unfolding pure fail lift continue
  ◌>>=◌ m f s = let (r, s') = m s in continue r f s'

  abbrev pub ◌>>◌ : {B : Type 0} → M F (Unit {0}) → M F B → M F B
  m >> n = m >>= λ _. n

  -- Make a call: it is recorded, and answered in view of the calls before it.
  unfoldable pub call : {A : Type 0} → Call → (List Call → Result A) → M F A
  call c answer s = (answer s.history, record s { history = c ∷ s.history })

  -- Recorder.Eventf
  unfoldable pub eventf : String → String → M F (Unit {0})
  eventf type reason s = (ok tt, record s { history = event type reason ∷ s.history })

  -- Run the method, and hand its error on as a value: `if err := m(); err != nil { … }`.
  unfoldable pub attempt : {A : Type 0} → M F A → M F (Result A)
  attempt m s = let (r, s') = m s in (ok r, s')

  -- imageFinder.FindImage
  unfoldable pub find_image : ImageFinder F → ImageSpec → M F ImageRef
  find_image finder spec s = let (r, f) = finder spec s.finder in (r, record s { finder = f })
