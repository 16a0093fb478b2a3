-- ===== src/Examples/Objects.antt =====
-- Examples of the theorems on single objects.
use application_controller.Common.{
  true, false, some, [], ◌∷◌, ◌≡◌, refl, sym, ap, arith, ◌↔◌, lookup, concat, string_eq,
}
use application_controller.Errors.{ok, err}
use application_controller.Kube.{NamespacedName, OwnerReference, ObjectMeta, Kind, Object}
use application_controller.Api.{Application}
use application_controller.Gkutil.{is_application, from_owner_reference}
use application_controller.Images.ImageRef.{to_string}
use application_controller.Controller.Names.{
  application_name, service_account_name, service_name, deployment_name,
}
use application_controller.Controller.Ownership.{
  annotation, controlled_by, annotated_by, is_object_owned_by, index_by_controller,
  index_by_annotation,
}
use application_controller.Controller.Ownership.Agreement.{
  IsLawful, annotated_by-index_by_annotation, index_by_controller-controlled_by,
  set_owner-is_object_owned_by,
}
use application_controller.Controller.State.{
  get, pure, fail, lift, call, eventf, attempt, find_image, ◌>>=◌,
}
use application_controller.Controller.State.Steps.{then_call}
use application_controller.Controller.State.Keeps.{Keeps, Keeps-pure}
use application_controller.Controller.Mutators.Deployments.{deployment_mutate, mutate_deployment}
use application_controller.Controller.Resource.{
  refusal, fetch, set_owner, create_or_patch, reconcile_resource, ensure_resource,
  ensure_no_resource,
}
use application_controller.Controller.Resource.Rightful.{IsRightful, reconcile_resource-IsRightful}
use application_controller.Controller.Resource.Branches.{
  Removed, reconcile_resource_refuses, ensure_no_resource-Removed,
}
use application_controller.Controller.Resource.Committed.{Committed, ensure_resource-Committed}
use application_controller.Controller.Reconciler.{
  service_events, service_account_events, role_binding_events, deployment_events,
}
use application_controller.Controller.Reconciler.Zero.{zero_object}
use application_controller.Controller.Reconciler.Owned.{first_image, reconcile_deployment}
use application_controller.Controller.Reconciler.Owned.Status.{reconcile_deployment-image}
use application_controller.Examples.Cluster.{
  no_meta, web, web_ref, stale_rb, web_crb, foreign_service, test_library, test_finder,
  cluster_with, foreign_cluster, reconciler_with, reference_to, fresh,
}

reconcile_resource-IsRightful_example :
    Keeps {F = Unit {0}}
      (λ _. Unit)
      (IsRightful test_library web)
      (reconcile_resource test_library
        (cluster_with web)
        web
        (service_account_name web)
        Kind.service_account
        (zero_object Kind.service_account)
        pure
        true
        service_account_events)
reconcile_resource-IsRightful_example =
    reconcile_resource-IsRightful test_library (cluster_with web) web (service_account_name web)
      Kind.service_account (zero_object Kind.service_account) pure true service_account_events
      Keeps-pure

foreign_owner : is_object_owned_by test_library Kind.service foreign_service.meta web ≡ false
unfolding is_object_owned_by
foreign_owner = refl

reconcile_resource_refuses_example :
    reconcile_resource test_library foreign_cluster web
      (service_name web)
      Kind.service
      (zero_object Kind.service)
      pure
      true
      service_events
      fresh
    ≡ (
      err (refusal "kind" (test_library.name_string (service_name web))),
      then_call (get Kind.service (service_name web)) fresh,
    )
reconcile_resource_refuses_example =
    reconcile_resource_refuses test_library foreign_cluster web Kind.service (service_name web)
      (zero_object Kind.service) pure true service_events fresh "kind" foreign_service refl refl
      foreign_owner

abbrev stale_name : NamespacedName
stale_name = record { namespace = "prod"; name = "web-role-edit" }

removes :
    (ensure_no_resource {F = Unit {0}} test_library
      (cluster_with web)
      web
      stale_name
      Kind.role_binding
      (zero_object Kind.role_binding)
      role_binding_events
      fresh).0
    ≡ ok stale_rb
unfolding ensure_no_resource reconcile_resource fetch is_object_owned_by pure fail lift call eventf
    attempt ◌>>=◌
removes = refl

ensure_no_resource-Removed_example :
    Removed test_library
      (cluster_with web)
      web
      Kind.role_binding
      stale_name
      fresh
      (ensure_no_resource test_library
        (cluster_with web)
        web
        stale_name
        Kind.role_binding
        (zero_object Kind.role_binding)
        role_binding_events
        fresh).1
ensure_no_resource-Removed_example =
    ensure_no_resource-Removed test_library (cluster_with web) web Kind.role_binding stale_name
      role_binding_events (zero_object Kind.role_binding) stale_rb fresh removes

abbrev web_account : Object Kind.service_account
web_account = record {
  meta = reference_to web (record no_meta { name = "web"; namespace = "prod" });
  spec = tt;
}

commits :
    (ensure_resource {F = Unit {0}} test_library
      (cluster_with web)
      web
      (service_account_name web)
      Kind.service_account
      (zero_object Kind.service_account)
      pure
      service_account_events
      fresh).0
    ≡ ok web_account
unfolding ensure_resource reconcile_resource fetch create_or_patch set_owner is_object_owned_by pure
    fail lift call eventf attempt ◌>>=◌
commits = refl

ensure_resource-Committed_example :
    Committed {F = Unit {0}} test_library
      (cluster_with web)
      web
      (service_account_name web)
      Kind.service_account
      pure
      web_account
      (ensure_resource test_library
        (cluster_with web)
        web
        (service_account_name web)
        Kind.service_account
        (zero_object Kind.service_account)
        pure
        service_account_events
        fresh).1.history
ensure_resource-Committed_example =
    ensure_resource-Committed test_library (cluster_with web) web (service_account_name web)
      Kind.service_account pure (zero_object Kind.service_account) web_account
      service_account_events fresh commits

web_type :
    (m : ObjectMeta)
    → annotation (test_library.set_owner_annotations web m) "type" ≡ some "Application.yarotsky.me"
unfolding annotation lookup
web_type m = refl

web_full_name :
    (m : ObjectMeta)
    → annotation (test_library.set_owner_annotations web m) "name"
      ≡ some (test_library.name_string (application_name web))
unfolding annotation lookup
web_full_name m = refl

web_kind : is_application (test_library.parse_group_kind "Application.yarotsky.me") ≡ true
unfolding is_application
web_kind = refl

abbrev web_owner : OwnerReference
web_owner = record {
  api_version = "yarotsky.me/v1alpha1";
  kind = "Application";
  name = "web";
  uid = "";
  controller = true;
}

pub test_library-IsLawful : IsLawful test_library web
test_library-IsLawful = record {
  controller = λ m m' set.
      let same : reference_to web m ≡ m' = ground (arith, set) in
      (web_owner, ap (λ meta. test_library.get_controller_of meta) (sym same), refl, refl);
  group = refl;
  known = refl;
  type = λ m. ("Application.yarotsky.me", web_type m, web_kind);
  namespaced_name = web_full_name;
}

sets_owner :
    set_owner test_library web
      (service_account_name web)
      Kind.service_account
      (zero_object Kind.service_account)
    ≡ ok (record { meta = reference_to web no_meta; spec = tt })
unfolding set_owner
sets_owner = refl

set_owner-is_object_owned_by_example :
    is_object_owned_by test_library Kind.service_account (reference_to web no_meta) web ≡ true
set_owner-is_object_owned_by_example =
    set_owner-is_object_owned_by test_library web test_library-IsLawful (service_account_name web)
      Kind.service_account (zero_object Kind.service_account)
      (record { meta = reference_to web no_meta; spec = tt }) refl sets_owner

annotated_by-index_by_annotation_example : (annotated_by test_library web web_crb.meta ≡ true) ↔ (
    index_by_annotation test_library web_crb.meta
    ≡ test_library.name_string (application_name web) ∷ [])
annotated_by-index_by_annotation_example =
    annotated_by-index_by_annotation test_library web web_crb.meta

stale_indexed : index_by_controller test_library stale_rb.meta ≡ web.name ∷ []
unfolding index_by_controller is_application from_owner_reference
stale_indexed = refl

index_by_controller-controlled_by_example :
    controlled_by test_library web (test_library.get_controller_of stale_rb.meta) ≡ true
index_by_controller-controlled_by_example =
    index_by_controller-controlled_by test_library web stale_rb.meta refl refl stale_indexed

abbrev web_deployment : Object Kind.deployment
web_deployment =
    let o = mutate_deployment test_library web web_ref (zero_object Kind.deployment) in
    record o { meta = reference_to web (record no_meta { name = "web"; namespace = "prod" }) }

abbrev noted_web : Application
noted_web =
    let status = web.status in
    record web {
      status = record status { image = to_string web_ref; image_last_update_time = "now" };
    }

deploys :
    (reconcile_deployment (reconciler_with (cluster_with web)) web fresh).0
    ≡ ok (some (web_deployment, noted_web))
unfolding reconcile_deployment ensure_resource reconcile_resource fetch create_or_patch set_owner
    is_object_owned_by deployment_mutate mutate_deployment find_image to_string concat pure fail
    lift call eventf attempt ◌>>=◌
deploys = refl

reconcile_deployment-image_example :
    (first_image web_deployment.spec.template.containers ≡ some noted_web.status.image)
    × Committed test_library
        (cluster_with web)
        web
        (deployment_name web)
        Kind.deployment
        (deployment_mutate test_library test_finder web)
        web_deployment
        (ensure_resource test_library
          (cluster_with web)
          web
          (deployment_name web)
          Kind.deployment
          (zero_object Kind.deployment)
          (deployment_mutate test_library test_finder web)
          deployment_events
          fresh).1.history
reconcile_deployment-image_example =
    reconcile_deployment-image (reconciler_with (cluster_with web)) web web_deployment noted_web
      fresh deploys
