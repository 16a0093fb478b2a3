-- ===== src/Controller/Mutators/Deployments.antt =====
-- deploymentMutator.Mutate of internal/controller/deployment.go
pub mod Drift
pub mod Calls
use application_controller.Common.{
  String, Bool, Option, none, some, List, [], ◌∷◌, if◌then◌else◌, true,
}
use application_controller.Errors.{
  Error, sentinel, wrap_both, err_image_check_failed, Result, ok, err,
}
use application_controller.Kube.{Container, PodSpec, DeploymentSpec, Kind, Object}
use application_controller.Api.{Application}
use application_controller.Images.ImageRef.{ImageRef, to_string}
use application_controller.Controller.Names.{service_account_name, selector_labels}
use application_controller.Controller.Ports.{reconcile_container_ports}
use application_controller.Controller.State.{
  Library, ImageFinder, M, pure, fail, ◌>>=◌, attempt, find_image,
}
use application_controller.Controller.Mutators.Pods.{
  volumes, mounts, update_first, secure_container, secure_pod,
}

-- The container, with the fields that the mutator sets.
unfoldable pub mutate_container : Application → ImageRef → Container → Container
unfolding secure_container
mutate_container app ref c = secure_container app.spec.security_context (record c {
  name = app.name;
  image = to_string ref;
  image_pull_policy = "Always";
  command = app.spec.command;
  args = app.spec.args;
  env = app.spec.env;
  env_from = app.spec.env_from;
  ports = reconcile_container_ports c.ports app.spec.ports;
  resources = app.spec.resources;
  liveness_probe = app.spec.probe;
  readiness_probe = app.spec.probe;
  volume_mounts = mounts app.spec.volumes;
})

-- if app.Spec.HostNetwork { … }
unfoldable pub join_host_network : Bool → PodSpec → PodSpec
join_host_network host_network p =
    if host_network
    then record p { host_network = true; dns_policy = "ClusterFirstWithHostNet" }
    else p

unfoldable pub mutate_pod : Application → ImageRef → PodSpec → PodSpec
unfolding mutate_container join_host_network secure_pod update_first
mutate_pod app ref p =
    let q = join_host_network app.spec.host_network (record p {
      service_account_name = (service_account_name app).name;
      node_selector = app.spec.node_selector;
    }) in
    let r = secure_pod app.spec.security_context (record q {
      volumes = volumes app.spec.volumes;
      containers = update_first (mutate_container app ref) q.containers;
    }) in
    record r { runtime_class_name = app.spec.runtime_class_name }

-- The part of the mutate function after the image has been found.
unfoldable pub mutate_deployment :
    Library → Application → ImageRef → Object Kind.deployment → Object Kind.deployment
unfolding mutate_pod
mutate_deployment library app ref deploy =
    let spec = deploy.spec in
    library.set_object_defaults_deployment (record deploy {
      spec = record spec {
        selector = selector_labels app;
        strategy_type = "Recreate";
        revision_history_limit = some 5;
        template_labels = selector_labels app;
        template = mutate_pod app ref spec.template;
      };
    })

-- fmt.Errorf("%w: %w", ErrImageCheckFailed, err)
abbrev pub image_check_failed : Error → Error
image_check_failed e = wrap_both (sentinel err_image_check_failed) e

module _ {F : Type 0} (library : Library) (finder : ImageFinder F) where
  found_image : {A : Type 0} → Result ImageRef → (ImageRef → A) → M F A
  found_image (err e) f = fail (image_check_failed e)
  found_image (ok ref) f = pure (f ref)

  unfoldable pub deployment_mutate :
      Application → Object Kind.deployment → M F (Object Kind.deployment)
  unfolding found_image
  deployment_mutate app deploy = do
    found ← attempt (find_image finder app.spec.image)
    found_image found (λ ref. mutate_deployment library app ref deploy)
