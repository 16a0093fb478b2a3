-- ===== src/Api.antt =====
-- api/v1alpha1/application_types.go: the Application resource.
use application_controller.Common.{String, ℕ, Bool, Option, none, some, List, GoMap}
use application_controller.Kube.{Value, RoleRef, ContainerPort, CoreVolume, Condition}

-- Tag of a Digest strategy, constraint of a SemVer one; both are optional sections of the spec.
pub record VersionStrategyDigestSpec : Type 0 where
  pub tag : String

pub record VersionStrategySemVerSpec : Type 0 where
  pub constraint : String

abbrev pub VersionStrategy : Type 0
VersionStrategy = String

abbrev pub version_strategy_digest : VersionStrategy
version_strategy_digest = "Digest"

abbrev pub version_strategy_semver : VersionStrategy
version_strategy_semver = "SemVer"

pub record ImageSpec : Type 0 where
  pub repository : String
  pub update_schedule : Option String
  pub version_strategy : VersionStrategy
  pub digest : Option VersionStrategyDigestSpec
  pub semver : Option VersionStrategySemVerSpec

-- `inner` is the embedded *corev1.SecurityContext.
pub record SecurityContext : Type 0 where
  pub inner : Option Value
  pub supplemental_groups : List ℕ
  pub fs_group : Option ℕ
  pub sysctls : List Value
  pub fs_group_change_policy : Option String

abbrev pub RoleBindingScope : Type 0
RoleBindingScope = String

abbrev pub role_binding_scope_namespace : RoleBindingScope
role_binding_scope_namespace = "Namespace"

abbrev pub role_binding_scope_cluster : RoleBindingScope
role_binding_scope_cluster = "Cluster"

pub record ScopedRoleRef : Type 0 where
  pub role_ref : RoleRef
  pub scope : Option RoleBindingScope

abbrev pub scope_or_default : ScopedRoleRef → RoleBindingScope
scope_or_default r = elim r.scope [ none ↦ role_binding_scope_namespace | some scope ↦ scope ]

pub record Volume : Type 0 where
  pub volume : CoreVolume
  pub read_only : Bool
  pub mount_path : String

pub record TraefikMiddlewareRef : Type 0 where
  pub namespace : String
  pub name : String

pub record IngressAuth : Type 0 where
  pub enabled : Bool
  pub exclude_path_prefixes : List String

pub record Ingress : Type 0 where
  pub host : String
  pub auth : Option IngressAuth
  pub port_name : String
  pub traefik_middlewares : List TraefikMiddlewareRef

pub record LoadBalancer : Type 0 where
  pub host : String
  pub port_names : List String

pub record Metrics : Type 0 where
  pub enabled : Bool
  pub path : String
  pub port_name : String

pub record CronJobSpec : Type 0 where
  pub name : String
  pub schedule : String
  pub command : List String
  pub args : List String
  pub resources : Value

pub record ApplicationSpec : Type 0 where
  pub image : ImageSpec
  pub command : List String
  pub args : List String
  pub ports : List ContainerPort
  pub env : List Value
  pub env_from : List Value
  pub resources : Value
  pub probe : Option Value
  pub security_context : Option SecurityContext
  pub runtime_class_name : Option String
  pub volumes : List Volume
  pub ingress : Option Ingress
  pub load_balancer : Option LoadBalancer
  pub metrics : Option Metrics
  pub roles : List ScopedRoleRef
  pub host_network : Bool
  pub node_selector : GoMap String String
  pub cron_jobs : List CronJobSpec

abbrev pub condition_ready : String
condition_ready = "Ready"

-- `image_last_update_time` is serialised.
pub record ApplicationStatus : Type 0 where
  pub image : String
  pub image_last_update_time : Value
  pub conditions : List Condition

-- The metadata that the controllers read: `api_version` is that of the TypeMeta,
-- `is_deleted` says that the deletion timestamp is set.
pub record Application : Type 0 where
  pub api_version : String
  pub kind : String
  pub name : String
  pub namespace : String
  pub is_deleted : Bool
  pub finalizers : List String
  pub spec : ApplicationSpec
  pub status : ApplicationStatus
