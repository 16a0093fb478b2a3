-- ===== src/Controller/Ownership/Agreement.antt =====
-- isObjectOwnedBy, the owner indexes and the ownership that reconcileResource sets
-- (internal/controller/application_controller.go) agree with each other.
use application_controller.Common.{
  String, Bool, true, false, not, Option, none, some, [], ◌∷◌, ◌==◌, string_eq, beq_refl, eq_of_beq,
  if◌then◌else◌, if_true, ◌≡◌, refl, sym, ◌∙◌, ap, subst, ◌↔◌, arith, Bool-cases, inl, inr,
}
use application_controller.Errors.{ok}
use application_controller.Kube.{
  GroupKind, group_kind_eq, NamespacedName, OwnerReference, ObjectMeta, Kind, Object,
}
use application_controller.Api.{Application}
use application_controller.Gkutil.{group_or_empty, from_owner_reference, is_application}
use application_controller.Controller.Names.{application_name}
use application_controller.Controller.State.{Library}
use application_controller.Controller.Resource.{set_owner}
use application_controller.Controller.Ownership.{
  annotation, text_or_empty, owner_kind_is_application, controlled_by, annotated_by,
  is_object_owned_by, index_by_controller, index_by_annotation,
}

module _ (library : Library) where
  agree :
      (kind_matches : Bool) (annotated : Option String) (owner_name : String)
      → ((if kind_matches
            then (elim annotated [ none ↦ false | some n ↦ n == owner_name ])
            else false)
          ≡ true)
        ↔ ((if kind_matches then (elim annotated [ none ↦ [] | some n ↦ n ∷ [] ]) else [])
            ≡ owner_name ∷ [])
  agree false annotated owner_name = ground arith
  agree true none owner_name = ground arith
  agree true (some n) owner_name = ground (arith, string_eq.beq_iff n owner_name)

  -- A cluster-scoped object is owned by an Application exactly if the index of ClusterRoleBindings
  -- has it under the Application's namespaced name, and under no other.
  pub annotated_by-index_by_annotation :
      (owner : Application) (meta : ObjectMeta)
      → (annotated_by library owner meta ≡ true)
        ↔ (index_by_annotation library meta ≡ library.name_string (application_name owner) ∷ [])
  unfolding annotated_by index_by_annotation
  annotated_by-index_by_annotation owner meta =
      agree (owner_kind_is_application library meta)
        (annotation meta library.namespaced_name_annotation)
        (library.name_string (application_name owner))

  listed :
      (controller : Option OwnerReference) (name : String)
      → (elim controller [
        | none ↦ []
        | some owner ↦
            if is_application (from_owner_reference library.parse_group_version (some owner))
            then owner.name ∷ []
            else []
      ])
        ≡ name ∷ []
      → (owner : OwnerReference) × (controller ≡ some owner)
        × (owner.name ≡ name)
        × (is_application (from_owner_reference library.parse_group_version (some owner)) ≡ true)
  listed none name h = ground arith
  listed (some owner) name h =
      elim (Bool-cases
        (is_application (from_owner_reference library.parse_group_version (some owner)))) [
          | inl is_app ↦ (owner, refl, ground arith, is_app)
          | inr other ↦ ground arith
        ]

  controls :
      (owner : Application) (c : OwnerReference)
      → library.parse_group_version c.api_version ≡ some (library.owner_group owner)
      → library.is_empty_object_kind owner ≡ false
      → c.name ≡ owner.name
      → controlled_by library owner (some c) ≡ true
  unfolding controlled_by
  controls owner c parsed known name = ground (
    arith,
    string_eq.beq_iff (library.owner_group owner) (library.owner_group owner),
    string_eq.beq_iff c.name owner.name,
  )

  parsed_group :
      (parsed : Option String) → group_or_empty parsed ≡ "yarotsky.me" → parsed ≡ some "yarotsky.me"
  unfolding group_or_empty
  parsed_group none h =
      let differs : false ≡ true = ap (λ t. t == "yarotsky.me") h in ground (arith, differs)
  parsed_group (some g) h = ap (λ x. some x) h

  is_application-group : (gk : GroupKind) → is_application gk ≡ true → gk.group ≡ "yarotsky.me"
  unfolding is_application
  is_application-group gk h = ap (λ (x : GroupKind). x.group) (eq_of_beq ⦃e = group_kind_eq⦄ gk _ h)

  application_group :
      (c : OwnerReference)
      → is_application (from_owner_reference library.parse_group_version (some c)) ≡ true
      → library.parse_group_version c.api_version ≡ some "yarotsky.me"
  unfolding from_owner_reference
  application_group c h =
      parsed_group _
        (is_application-group (from_owner_reference library.parse_group_version (some c)) h)

  -- An object that the index of RoleBindings and CronJobs has under an Application's name, and
  -- whose controller's API version is that of a group, is owned by the Application, so the clean-up
  -- of the listed objects is not refused; the Application's own group is the one that the index
  -- looks for, and its kind is known.
  pub index_by_controller-controlled_by :
      (owner : Application) (meta : ObjectMeta)
      → library.owner_group owner ≡ "yarotsky.me"
      → library.is_empty_object_kind owner ≡ false
      → index_by_controller library meta ≡ owner.name ∷ []
      → controlled_by library owner (library.get_controller_of meta) ≡ true
  unfolding index_by_controller
  index_by_controller-controlled_by owner meta group known h =
      let (controller, is_controller, same_name, is_app) =
        listed (library.get_controller_of meta) owner.name h in
      subst (λ c. controlled_by library owner c ≡ true) (sym is_controller)
        (controls owner controller
          (application_group controller is_app ∙ ap (λ x. some x) (sym group)) known same_name)

-- What the ownership functions of controller-runtime and operator-lib promise for an Application.
pub record IsLawful (library : Library) (app : Application) : Type 0 where
  -- SetControllerReference makes the Application the controller.
  pub controller :
      (m m' : ObjectMeta)
      → library.set_controller_reference app m ≡ ok m'
      → (c : OwnerReference) × (library.get_controller_of m' ≡ some c)
        × (c.api_version ≡ app.api_version)
        × (c.name ≡ app.name)
  pub group : library.parse_group_version app.api_version ≡ some (library.owner_group app)
  pub known : library.is_empty_object_kind app ≡ false
  -- SetOwnerAnnotations sets the type and the namespaced name.
  pub type :
      (m : ObjectMeta)
      → (t : String) × (annotation (library.set_owner_annotations app m) library.type_annotation
          ≡ some t)
        × (is_application (library.parse_group_kind t) ≡ true)
  pub namespaced_name :
      (m : ObjectMeta)
      → annotation (library.set_owner_annotations app m) library.namespaced_name_annotation
        ≡ some (library.name_string (application_name app))

module _ (library : Library) (app : Application) where
  owned-annotated_by :
      (k : Kind) (meta : ObjectMeta)
      → library.is_object_namespaced k ≡ some false
      → is_object_owned_by library k meta app ≡ annotated_by library app meta
  unfolding is_object_owned_by
  owned-annotated_by k meta scope =
      ap
        (λ (n : Option Bool). elim n [
          | some true ↦ controlled_by library app (library.get_controller_of meta)
          | _ ↦ annotated_by library app meta
        ])
        scope

  pub owned-controlled_by :
      (k : Kind) (meta : ObjectMeta)
      → library.is_object_namespaced k ≡ some true
      → is_object_owned_by library k meta app
        ≡ controlled_by library app (library.get_controller_of meta)
  unfolding is_object_owned_by
  owned-controlled_by k meta scope =
      ap
        (λ (n : Option Bool). elim n [
          | some true ↦ controlled_by library app (library.get_controller_of meta)
          | _ ↦ annotated_by library app meta
        ])
        scope

module _ (library : Library) (app : Application) (laws : IsLawful library app) where
  with_controller-owned :
      (m m' : ObjectMeta)
      → library.set_controller_reference app m ≡ ok m'
      → controlled_by library app (library.get_controller_of m') ≡ true
  with_controller-owned m m' set =
      let (c, is_controller, version, name) = laws.controller m m' set in
      subst (λ o. controlled_by library app o ≡ true) (sym is_controller)
        (controls library app c (ap library.parse_group_version version ∙ laws.group) laws.known
          name)

  annotated-owned :
      (m : ObjectMeta) → annotated_by library app (library.set_owner_annotations app m) ≡ true
  unfolding annotated_by owner_kind_is_application
  annotated-owned m =
      let (t, has_type, is_app) = laws.type m in
      let kind =
        ap (λ a. is_application (library.parse_group_kind (text_or_empty a))) has_type ∙ is_app in
      if_true _ _ false kind
      ∙ ap (λ a. elim a [ none ↦ false | some n ↦ n == library.name_string (application_name app) ])
          (laws.namespaced_name m)
      ∙ beq_refl (library.name_string (application_name app))

  set_owner-annotations :
      (name : NamespacedName) (k : Kind) (obj o : Object k)
      → (name.namespace == "") ≡ true
      → set_owner library app name k obj ≡ ok o
      → o.meta ≡ library.set_owner_annotations app obj.meta
  unfolding set_owner
  set_owner-annotations name k obj o cluster set = ground arith

  pub set_owner-reference :
      (name : NamespacedName) (k : Kind) (obj o : Object k)
      → (name.namespace == "") ≡ false
      → set_owner library app name k obj ≡ ok o
      → library.set_controller_reference app obj.meta ≡ ok o.meta
  unfolding set_owner
  set_owner-reference name k obj o namespaced set = ground arith

  -- What reconcileResource writes, isObjectOwnedBy recognises: the object on which the owner
  -- information has been set, by a controller reference or by annotations, is one that the
  -- Application owns, so that a later reconciliation is not refused. The functions of the
  -- libraries are as documented, and the name has a namespace exactly if the kind is namespaced.
  pub set_owner-is_object_owned_by :
      (name : NamespacedName) (k : Kind) (obj o : Object k)
      → library.is_object_namespaced k ≡ some (not (name.namespace == ""))
      → set_owner library app name k obj ≡ ok o
      → is_object_owned_by library k o.meta app ≡ true
  set_owner-is_object_owned_by name k obj o scope set = elim (Bool-cases (name.namespace == "")) [
    | inl cluster ↦
        owned-annotated_by library app k o.meta (scope ∙ ap (λ b. some (not b)) cluster)
        ∙ ap (annotated_by library app) (set_owner-annotations name k obj o cluster set)
        ∙ annotated-owned obj.meta
    | inr namespaced ↦
        owned-controlled_by library app k o.meta (scope ∙ ap (λ b. some (not b)) namespaced)
        ∙ with_controller-owned obj.meta o.meta (set_owner-reference name k obj o namespaced set)
  ]
