-- ===== src/Discovery.antt =====
-- internal/k8s/prometheussupport.go and internal/k8s/traefiksupport.go: whether the cluster serves a
-- kind. The Kubernetes client is a record of its answers.
pub mod Served
use application_controller.Common.{
  String, Bool, true, false, not, Option, none, some, List, [], ◌∷◌, ◌==◌, string_eq, if◌then◌else◌,
}
use application_controller.Errors.{Error, wrap_after, Result, ok, err, ◌>>=◌}

-- metav1.APIResourceList, with the kinds of its APIResources
pub record ApiResourceList : Type 0 where
  pub group_version : String
  pub kinds : List String

-- `Config` stands for *rest.Config, `DiscoveryClient` for the client that is made of it.
pub record KubernetesClient : Type 1 where
  pub Config : Type 0
  pub DiscoveryClient : Type 0
  pub in_cluster_config : Result Config
  pub new_discovery_client : Config → Result DiscoveryClient
  pub server_groups_and_resources : DiscoveryClient → Result (List ApiResourceList)

-- The loop over g.APIResources: the first resource of the kind ends both loops.
has_kind : String → List String → Bool
has_kind kind [] = false
has_kind kind (r ∷ rs) = let rest = has_kind kind rs in if r == kind then true else rest

-- The loop over the lists of the group version.
serves : String → String → List ApiResourceList → Bool
unfolding has_kind
serves group_version kind [] = false
serves group_version kind (g ∷ gs) =
    let rest = serves group_version kind gs in
    if not (g.group_version == group_version)
    then rest
    else if has_kind kind g.kinds
    then true
    else rest

-- fmt.Errorf(text + "%w", err)
explain {ℓ} : {A : Type ℓ} → String → Result A → Result A
explain text (ok a) = ok a
explain text (err e) = err (wrap_after e text)

module _ (k8s : KubernetesClient) where
  open k8s use {Config, in_cluster_config, new_discovery_client, server_groups_and_resources}

  config_or_default : Option Config → Result Config
  unfolding explain
  config_or_default none = explain "unable to get kubernetes client config: " in_cluster_config
  config_or_default (some config) = ok config

  -- The steps that both functions share.
  unfoldable pub list_resources : Option Config → Result (List ApiResourceList)
  unfolding config_or_default
  list_resources config = do
    cfg ← config_or_default config
    client ← explain "unable to create discovery client: " (new_discovery_client cfg)
    explain "unable to get Group and Resources: " (server_groups_and_resources client)

  -- IsPrometheusOperatorInstalled
  unfoldable pub is_prometheus_operator_installed : Option Config → Result Bool
  unfolding serves
  is_prometheus_operator_installed config = do
    lists ← list_resources config
    ok (serves "monitoring.coreos.com/v1" "PodMonitor" lists)

  -- IsTraefikInstalled
  unfoldable pub is_traefik_installed : Option Config → Result Bool
  unfolding serves
  is_traefik_installed config = do
    lists ← list_resources config
    ok (serves "traefik.io/v1alpha1" "IngressRoute" lists)
