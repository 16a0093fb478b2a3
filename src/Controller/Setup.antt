-- ===== src/Controller/Setup.antt =====
-- SetupWithManager and the index setup of internal/controller/application_controller.go. The manager
-- answers the registration of indexes and the completion of the controller.
pub mod Watches
use application_controller.Common.{String, Bool, List, [], ◌∷◌, ◌++◌, if◌then◌else◌}
use application_controller.Errors.{Result, ok, err}
use application_controller.Kube.{GroupKind, ObjectMeta, Kind}
use application_controller.Controller.Ownership.{index_by_controller, index_by_annotation}
use application_controller.Controller.State.{Library}
use application_controller.Controller.Reconciler.{Reconciler}

-- ownerKey
abbrev pub owner_key : String
owner_key = "metadata.controller"

-- A call of IndexField: the kind, the key, and the index function.
pub record Index : Type 0 where
  pub kind : Kind
  pub key : String
  pub values : ObjectMeta → List String

-- The types that a controller can own: the kinds of the Application's objects, and two others.
pub data OwnedType : Type 0 where
  of_kind : Kind → OwnedType
  ingress_route_tcp ingress_route_udp : OwnedType

-- A call of the builder.
pub data Watch : Type 0 where
  -- For(&Application{})
  for_application : Watch
  owns : OwnedType → Watch
  -- Watches with EnqueueRequestForAnnotation of a group and kind
  watches_annotated : Kind → GroupKind → Watch
  -- WatchesRawSource with the channel of image updates
  image_updates : Watch

pub record Manager : Type 0 where
  -- IndexField, in view of the calls before it
  pub index_field : List Index → Index → Result (Unit {0})
  -- the group and kind that GVKForObject answers for the Application; its error is dropped
  pub application_kind : GroupKind
  -- builder.Complete
  pub complete : List Watch → Result (Unit {0})

-- The indexes and the watches that have been registered.
pub record Registered : Type 0 where
  pub indexes : List Index
  pub watches : List Watch

module _ (manager : Manager) (library : Library) where
  -- setupRoleBindingIndex, setupClusterRoleBindingIndex and setupCronJobIndex
  unfoldable pub role_binding_index : Index
  role_binding_index = record {
    kind = Kind.role_binding;
    key = owner_key;
    values = index_by_controller library;
  }

  unfoldable pub cluster_role_binding_index : Index
  cluster_role_binding_index = record {
    kind = Kind.cluster_role_binding;
    key = owner_key;
    values = index_by_annotation library;
  }

  unfoldable pub cron_job_index : Index
  cron_job_index = record {
    kind = Kind.cron_job;
    key = owner_key;
    values = index_by_controller library;
  }

  after_index : List Index → Result (Unit {0}) → Result (List Index) → Result (List Index)
  after_index done (ok _) rest = rest
  after_index done (err e) rest = err e

  -- The calls of IndexField in their order; the first that fails ends them.
  index_all : List Index → List Index → Result (List Index)
  unfolding after_index
  index_all done [] = ok done
  index_all done (index ∷ more) =
      let rest = index_all (done ++ index ∷ []) more in
      after_index done (manager.index_field done index) rest

  -- setupIndexes
  unfoldable pub setup_indexes : Result (List Index)
  unfolding index_all role_binding_index cluster_role_binding_index cron_job_index
  setup_indexes =
      index_all [] (role_binding_index ∷ cluster_role_binding_index ∷ cron_job_index ∷ [])

  module _ (supports_prometheus supports_traefik : Bool) where
    -- The calls of the builder.
    unfoldable pub watches : List Watch
    watches =
        (for_application
          ∷ owns (of_kind Kind.deployment)
          ∷ owns (of_kind Kind.service)
          ∷ owns (of_kind Kind.service_account)
          ∷ owns (of_kind Kind.role_binding)
          ∷ watches_annotated Kind.cluster_role_binding manager.application_kind
          ∷ image_updates
          ∷ [])
        ++ (if supports_prometheus then owns (of_kind Kind.pod_monitor) ∷ [] else [])
        ++ (if supports_traefik
            then owns (of_kind Kind.ingress_route)
              ∷ owns ingress_route_tcp
              ∷ owns ingress_route_udp
              ∷ []
            else [])

    completed : List Index → Result (Unit {0}) → Result Registered
    unfolding watches
    completed indexes (ok _) = ok (record { indexes = indexes; watches = watches })
    completed indexes (err e) = err e

    complete_all : Result (List Index) → Result Registered
    unfolding completed
    complete_all (ok indexes) = completed indexes (manager.complete watches)
    complete_all (err e) = err e

    -- SetupWithManager
    unfoldable pub setup_with_manager : Result Registered
    unfolding setup_indexes complete_all
    setup_with_manager = complete_all setup_indexes
