-- ===== src/Controller/Mutators/Pods.antt =====
-- What deploymentMutator.Mutate and cronJobMutator.Mutate (internal/controller/deployment.go and
-- cronjob.go) have in common: the volumes, the first container, and the security context.
use application_controller.Common.{false, Option, none, some, List, [], ◌∷◌}
use application_controller.Kube.{CoreVolume, VolumeMount, Container, PodSpec}
use application_controller.Api.{Volume, SecurityContext}

-- corev1.Container{}
abbrev pub zero_container : Container
zero_container = record {
  name = "";
  image = "";
  image_pull_policy = "";
  command = [];
  args = [];
  env = [];
  env_from = [];
  ports = [];
  resources = "";
  liveness_probe = none;
  readiness_probe = none;
  volume_mounts = [];
  security_context = none;
}

abbrev pub zero_pod : PodSpec
zero_pod = record {
  service_account_name = "";
  node_selector = [];
  host_network = false;
  dns_policy = "";
  restart_policy = "";
  volumes = [];
  containers = [];
  security_context = none;
  runtime_class_name = none;
}

-- vols = append(vols, v.Volume)
unfoldable pub volumes : List Volume → List CoreVolume
volumes [] = []
volumes (v ∷ vs) = v.volume ∷ volumes vs

-- corev1.VolumeMount{Name: v.Name, MountPath: v.MountPath}: its ReadOnly is the zero value
unfoldable pub mounts : List Volume → List VolumeMount
mounts [] = []
mounts (v ∷ vs) =
    record { name = v.volume.name; read_only = false; mount_path = v.mount_path } ∷ mounts vs

-- container = &podTemplateSpec.Containers[0], after an empty list has been given one container
unfoldable pub update_first : (Container → Container) → List Container → List Container
update_first f [] = f zero_container ∷ []
update_first f (c ∷ cs) = f c ∷ cs

-- container.SecurityContext = sc.SecurityContext
unfoldable pub secure_container : Option SecurityContext → Container → Container
secure_container none c = c
secure_container (some sc) c = record c { security_context = sc.inner }

-- podTemplateSpec.SecurityContext = &corev1.PodSecurityContext{…}
unfoldable pub secure_pod : Option SecurityContext → PodSpec → PodSpec
secure_pod none p = p
secure_pod (some sc) p = record p {
  security_context = some (record {
    supplemental_groups = sc.supplemental_groups;
    fs_group = sc.fs_group;
    sysctls = sc.sysctls;
    fs_group_change_policy = sc.fs_group_change_policy;
  });
}
