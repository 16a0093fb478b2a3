-- ===== src/Examples/Discovering.antt =====
-- Two API lists, and what the discovery functions of internal/k8s make of them.
use application_controller.Common.{true, false, none, List, [], ◌∷◌, ◌≡◌, refl}
use application_controller.Errors.{ok}
use application_controller.Discovery.{
  ApiResourceList, KubernetesClient, list_resources, is_prometheus_operator_installed,
  is_traefik_installed,
}

abbrev pub some_lists : List ApiResourceList
some_lists =
    record { group_version = "apps/v1"; kinds = "Deployment" ∷ [] }
    ∷ record { group_version = "monitoring.coreos.com/v1"; kinds = "Probe" ∷ "PodMonitor" ∷ [] }
    ∷ []

abbrev pub some_cluster : KubernetesClient
some_cluster = record {
  Config = Unit;
  DiscoveryClient = Unit;
  in_cluster_config = ok tt;
  new_discovery_client = λ config. ok tt;
  server_groups_and_resources = λ client. ok some_lists;
}

prometheus_found : is_prometheus_operator_installed some_cluster none ≡ ok true
unfolding is_prometheus_operator_installed list_resources
prometheus_found = refl

traefik_missing : is_traefik_installed some_cluster none ≡ ok false
unfolding is_traefik_installed list_resources
traefik_missing = refl

pub lists_read : list_resources some_cluster none ≡ ok some_lists
unfolding list_resources
lists_read = refl
