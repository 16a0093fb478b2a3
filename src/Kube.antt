-- ===== src/Kube.antt =====
-- The Kubernetes, Traefik and Prometheus objects that the controllers read and write, with the
-- fields that the source names. A value that the source only copies is kept in serialised form.
use application_controller.Common.{
  String, ℕ, Bool, true, ◌&&◌, Option, List, GoMap, Eq, ◌==◌, ◌≡◌, ◌↔◌, arith, string_eq,
}

abbrev pub Value : Type 0
Value = String

pub record NamespacedName : Type 0 where
  pub namespace : String
  pub name : String

abbrev pub name_beq : NamespacedName → NamespacedName → Bool
name_beq a b = a.namespace == b.namespace && a.name == b.name

pub name_beq_iff : (a b : NamespacedName) → (name_beq a b ≡ true) ↔ (a ≡ b)
name_beq_iff a b =
    ground (arith, string_eq.beq_iff a.namespace b.namespace, string_eq.beq_iff a.name b.name)

instance abbrev pub name_eq : Eq NamespacedName
name_eq = record { beq = name_beq; beq_iff = name_beq_iff }

pub record GroupKind : Type 0 where
  pub group : String
  pub kind : String

abbrev pub group_kind_beq : GroupKind → GroupKind → Bool
group_kind_beq a b = a.group == b.group && a.kind == b.kind

pub group_kind_beq_iff : (a b : GroupKind) → (group_kind_beq a b ≡ true) ↔ (a ≡ b)
group_kind_beq_iff a b =
    ground (arith, string_eq.beq_iff a.group b.group, string_eq.beq_iff a.kind b.kind)

instance abbrev pub group_kind_eq : Eq GroupKind
group_kind_eq = record { beq = group_kind_beq; beq_iff = group_kind_beq_iff }

pub record OwnerReference : Type 0 where
  pub api_version : String
  pub kind : String
  pub name : String
  pub uid : String
  pub controller : Bool

-- `annotations` is `none` for the nil map.
pub record ObjectMeta : Type 0 where
  pub name : String
  pub namespace : String
  pub annotations : Option (GoMap String String)
  pub owner_references : List OwnerReference

pub record RoleRef : Type 0 where
  pub api_group : String
  pub kind : String
  pub name : String

pub record Subject : Type 0 where
  pub api_group : String
  pub kind : String
  pub name : String
  pub namespace : String

pub record ContainerPort : Type 0 where
  pub name : String
  pub host_port : ℕ
  pub container_port : ℕ
  pub protocol : String
  pub host_ip : String

-- `target_port` is the string form of the IntOrString.
pub record ServicePort : Type 0 where
  pub name : String
  pub protocol : String
  pub app_protocol : Option String
  pub port : ℕ
  pub target_port : String
  pub node_port : ℕ

pub record CoreVolume : Type 0 where
  pub name : String
  pub source : Value

pub record VolumeMount : Type 0 where
  pub name : String
  pub read_only : Bool
  pub mount_path : String

pub record Container : Type 0 where
  pub name : String
  pub image : String
  pub image_pull_policy : String
  pub command : List String
  pub args : List String
  pub env : List Value
  pub env_from : List Value
  pub ports : List ContainerPort
  pub resources : Value
  pub liveness_probe : Option Value
  pub readiness_probe : Option Value
  pub volume_mounts : List VolumeMount
  pub security_context : Option Value

pub record PodSecurityContext : Type 0 where
  pub supplemental_groups : List ℕ
  pub fs_group : Option ℕ
  pub sysctls : List Value
  pub fs_group_change_policy : Option String

pub record PodSpec : Type 0 where
  pub service_account_name : String
  pub node_selector : GoMap String String
  pub host_network : Bool
  pub dns_policy : String
  pub restart_policy : String
  pub volumes : List CoreVolume
  pub containers : List Container
  pub security_context : Option PodSecurityContext
  pub runtime_class_name : Option String

pub record DeploymentCondition : Type 0 where
  pub type : String
  pub status : String
  pub reason : String
  pub message : String
  pub last_transition_time : Value

-- metav1.Condition
pub record Condition : Type 0 where
  pub type : String
  pub status : String
  pub reason : String
  pub message : String
  pub last_transition_time : Value

pub record DeploymentSpec : Type 0 where
  pub selector : GoMap String String
  pub strategy_type : String
  pub revision_history_limit : Option ℕ
  pub template_labels : GoMap String String
  pub template : PodSpec
  pub conditions : List DeploymentCondition

pub record CronJobObjectSpec : Type 0 where
  pub job_template_labels : GoMap String String
  pub concurrency_policy : String
  pub schedule : String
  pub successful_jobs_history_limit : Option ℕ
  pub failed_jobs_history_limit : Option ℕ
  pub template : PodSpec

pub record ServiceSpec : Type 0 where
  pub type : String
  pub ports : List ServicePort
  pub selector : GoMap String String

pub record PodMetricsEndpoint : Type 0 where
  pub port : String
  pub path : String

pub record PodMonitorSpec : Type 0 where
  pub pod_metrics_endpoints : List PodMetricsEndpoint
  pub selector : GoMap String String
  pub pod_target_labels : List String

-- traefikv1alpha1.Service, with its LoadBalancerSpec
pub record TraefikService : Type 0 where
  pub kind : String
  pub namespace : String
  pub name : String
  pub port : String

pub record Route : Type 0 where
  pub kind : String
  pub matches : String
  pub middlewares : List NamespacedName
  pub services : List TraefikService

pub record BindingSpec : Type 0 where
  pub subjects : List Subject
  pub role_ref : RoleRef

-- The kinds of the objects that an Application owns, and what an object of each kind holds.
pub data Kind : Type 0 where
  service_account role_binding cluster_role_binding service : Kind
  pod_monitor ingress_route deployment cron_job : Kind

abbrev pub Spec : Kind → Type 0
Spec Kind.service_account = Unit
Spec Kind.role_binding = BindingSpec
Spec Kind.cluster_role_binding = BindingSpec
Spec Kind.service = ServiceSpec
Spec Kind.pod_monitor = PodMonitorSpec
Spec Kind.ingress_route = List Route
Spec Kind.deployment = DeploymentSpec
Spec Kind.cron_job = CronJobObjectSpec

pub record Object (k : Kind) : Type 0 where
  pub meta : ObjectMeta
  pub spec : Spec k
