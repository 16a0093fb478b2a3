-- ===== src/Controller/Ownership.antt =====
-- isObjectOwnedBy and the owner indexes of internal/controller/application_controller.go
pub mod Agreement
use application_controller.Common.{
  String, Bool, true, false, ◌&&◌, Option, none, some, List, [], ◌∷◌, GoMap, lookup, ◌==◌,
  string_eq, if◌then◌else◌,
}
use application_controller.Kube.{NamespacedName, OwnerReference, ObjectMeta, Kind, Object}
use application_controller.Api.{Application}
use application_controller.Gkutil.{from_owner_reference, is_application}
use application_controller.Controller.Names.{application_name}
use application_controller.Controller.State.{Library}

-- annotations[key]; a nil map reads as an empty one
unfoldable pub annotation : ObjectMeta → String → Option String
annotation meta key = elim meta.annotations [ none ↦ none | some m ↦ lookup key m ]

-- annotations[key], the empty text for a missing key
unfoldable pub text_or_empty : Option String → String
text_or_empty none = ""
text_or_empty (some t) = t

module _ (library : Library) where
  unfoldable pub owner_kind_is_application : ObjectMeta → Bool
  unfolding annotation text_or_empty
  owner_kind_is_application meta =
      is_application
        (library.parse_group_kind (text_or_empty (annotation meta library.type_annotation)))

  -- The branch for namespaced objects.
  unfoldable pub controlled_by : Application → Option OwnerReference → Bool
  controlled_by owner none = false
  controlled_by owner (some controller) =
      elim (library.parse_group_version controller.api_version) [
        | none ↦ false
        | some group ↦
            if library.is_empty_object_kind owner
            then false
            else (group == library.owner_group owner && controller.name == owner.name)
      ]

  -- The branch for cluster-scoped objects.
  unfoldable pub annotated_by : Application → ObjectMeta → Bool
  unfolding owner_kind_is_application
  annotated_by owner meta =
      if owner_kind_is_application meta
      then elim (annotation meta library.namespaced_name_annotation) [
        | none ↦ false
        | some owner_name ↦ owner_name == library.name_string (application_name owner)
      ]
      else false

  unfoldable pub is_object_owned_by : (k : Kind) → ObjectMeta → Application → Bool
  unfolding controlled_by annotated_by
  is_object_owned_by k meta owner = elim (library.is_object_namespaced k) [
    | some true ↦ controlled_by owner (library.get_controller_of meta)
    | _ ↦ annotated_by owner meta
  ]

  -- The index functions of setupRoleBindingIndex and setupCronJobIndex.
  unfoldable pub index_by_controller : ObjectMeta → List String
  index_by_controller meta = elim (library.get_controller_of meta) [
    | none ↦ []
    | some owner ↦
        if is_application (from_owner_reference library.parse_group_version (some owner))
        then owner.name ∷ []
        else []
  ]

  -- The index function of setupClusterRoleBindingIndex.
  unfoldable pub index_by_annotation : ObjectMeta → List String
  unfolding owner_kind_is_application
  index_by_annotation meta =
      if owner_kind_is_application meta
      then elim (annotation meta library.namespaced_name_annotation) [
        | none ↦ []
        | some owner_name ↦ owner_name ∷ []
      ]
      else []
