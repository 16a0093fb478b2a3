-- ===== src/Examples/Cluster.antt =====
-- An Application, the answers of a small cluster, and the library functions, for the examples.
use application_controller.Common.{
  String, Bool, true, false, Option, none, some, List, [], ◌∷◌, GoMap, ◌==◌, string_eq, concat,
  if◌then◌else◌,
}
use application_controller.Errors.{Error, foreign, Result, ok, err}
use application_controller.Kube.{
  NamespacedName, OwnerReference, ObjectMeta, Condition, RoleRef, ContainerPort, Kind, Object,
}
use application_controller.Api.{Application, ApplicationSpec, ImageSpec}
use application_controller.Images.ImageRef.{ImageRef}
use application_controller.Controller.State.{Client, Library, State, ImageFinder, created}
use application_controller.Controller.Mutators.IngressRoutes.{AuthConfig, IngressRouteMutator}
use application_controller.Controller.Reconciler.{Reconciler}
use application_controller.Controller.Reconciler.Seen.{Reordered-refl}
use application_controller.Controller.Reconciler.Zero.{zero_spec}

abbrev pub no_meta : ObjectMeta
no_meta = record { name = ""; namespace = ""; annotations = none; owner_references = [] }

abbrev pub view_role : RoleRef
view_role = record { api_group = "rbac.authorization.k8s.io"; kind = "Role"; name = "view" }

abbrev pub web_port : ContainerPort
web_port = record {
  name = "web";
  host_port = 0;
  container_port = 8080;
  protocol = "TCP";
  host_ip = "";
}

abbrev pub web_image : ImageSpec
web_image = record {
  repository = "example/web";
  update_schedule = none;
  version_strategy = "SemVer";
  digest = none;
  semver = some (record { constraint = "1.x" });
}

abbrev pub web_spec : ApplicationSpec
web_spec = record {
  image = web_image;
  command = [];
  args = [];
  ports = web_port ∷ [];
  env = [];
  env_from = [];
  resources = "";
  probe = none;
  security_context = none;
  runtime_class_name = none;
  volumes = [];
  ingress = none;
  load_balancer = none;
  metrics = none;
  roles = record { role_ref = view_role; scope = some "Namespace" } ∷ [];
  host_network = false;
  node_selector = [];
  cron_jobs = [];
}

abbrev pub starting : Condition
starting = record {
  type = "Ready";
  status = "Unknown";
  reason = "Reconciling";
  message = "Starting reconciliation";
  last_transition_time = "";
}

-- An Application in the middle of its life.
abbrev pub web : Application
web = record {
  api_version = "yarotsky.me/v1alpha1";
  kind = "Application";
  name = "web";
  namespace = "prod";
  is_deleted = false;
  finalizers = "application.yarotsky.me/finalizer" ∷ [];
  spec = web_spec;
  status = record { image = ""; image_last_update_time = ""; conditions = starting ∷ [] };
}

-- The same one on its way out, and one with a Role that is to be bound in the whole cluster.
abbrev pub leaving_web : Application
leaving_web = record web { is_deleted = true }

abbrev pub wide_web : Application
wide_web = record web {
  spec = record web_spec { roles = record { role_ref = view_role; scope = some "Cluster" } ∷ [] };
}

abbrev pub name_text : NamespacedName → String
name_text n = concat (n.namespace ∷ "/" ∷ n.name ∷ [])

abbrev first_owner : List OwnerReference → Option OwnerReference
first_owner [] = none
first_owner (o ∷ os) = some o

abbrev pub reference_to : Application → ObjectMeta → ObjectMeta
reference_to app meta = record meta {
  owner_references =
      record {
        api_version = app.api_version;
        kind = app.kind;
        name = app.name;
        uid = "";
        controller = true;
      }
      ∷ [];
}

abbrev pub annotations_of : Application → GoMap String String
annotations_of app =
    ("type", "Application.yarotsky.me")
    ∷ ("name", name_text (record { namespace = app.namespace; name = app.name }))
    ∷ []

abbrev is_namespaced : Kind → Bool
is_namespaced Kind.cluster_role_binding = false
is_namespaced _ = true

abbrev pub test_library : Library
test_library = record {
  gvk_for_object = λ k. ok "kind";
  is_object_namespaced = λ k. some (is_namespaced k);
  get_controller_of = λ meta. first_owner meta.owner_references;
  parse_group_version = λ v. if v == "yarotsky.me/v1alpha1" then some "yarotsky.me" else none;
  parse_group_kind = λ t.
      if t == "Application.yarotsky.me"
      then record { group = "yarotsky.me"; kind = "Application" }
      else record { group = ""; kind = t };
  is_empty_object_kind = λ app. false;
  owner_group = λ app. "yarotsky.me";
  type_annotation = "type";
  namespaced_name_annotation = "name";
  set_owner_annotations = λ app meta. record meta { annotations = some (annotations_of app) };
  set_controller_reference = λ app meta. ok (reference_to app meta);
  contains_finalizer = λ app f. true;
  add_finalizer = λ app f. record app { finalizers = f ∷ [] };
  remove_finalizer = λ app f. record app { finalizers = [] };
  set_status_condition = λ conditions c. c ∷ [];
  find_status_condition = λ conditions type. none;
  set_object_defaults_deployment = λ d. d;
  now = λ h. "now";
  name_string = name_text;
  to_lower = λ s. s;
}

abbrev pub not_found : Error
not_found = foreign "NotFound" "no such object"

-- A binding of the Application, and a Service of somebody else.
abbrev pub web_crb : Object Kind.cluster_role_binding
web_crb = record {
  meta = record no_meta {
    name = "prod-web-clusterrole-view";
    annotations = some (annotations_of web);
  };
  spec = zero_spec Kind.cluster_role_binding;
}

abbrev pub stale_rb : Object Kind.role_binding
stale_rb = record {
  meta = reference_to web (record no_meta { name = "web-role-edit"; namespace = "prod" });
  spec = zero_spec Kind.role_binding;
}

abbrev pub foreign_service : Object Kind.service
foreign_service = record {
  meta = record no_meta { name = "web"; namespace = "prod" };
  spec = zero_spec Kind.service;
}

abbrev bindings_only : (k : Kind) → NamespacedName → Result (Object k)
bindings_only Kind.cluster_role_binding name = ok web_crb
bindings_only Kind.role_binding name =
    if name.name == "web-role-edit" then ok stale_rb else err not_found
bindings_only _ name = err not_found

abbrev listed_bindings : (k : Kind) → Result (List (Object k))
listed_bindings Kind.cluster_role_binding = ok (web_crb ∷ [])
listed_bindings Kind.role_binding = ok (stale_rb ∷ [])
listed_bindings _ = ok []

-- The API server: it has a ClusterRoleBinding and a RoleBinding of the Application, and nothing else.
abbrev pub cluster_with : Application → Client
cluster_with app = record {
  get_application = λ h name. ok app;
  get = λ h k name. bindings_only k name;
  list = λ h k ns owner. listed_bindings k;
  before = λ h k o. ok o;
  commit = λ h k o. ok (created, o);
  delete = λ h k o. ok tt;
  update = λ h a. ok a;
  update_status = λ h a. ok a;
  is_not_found = λ e. true;
  is_conflict = λ e. false;
}

abbrev services_only : (k : Kind) → Result (Object k)
services_only Kind.service = ok foreign_service
services_only _ = err not_found

-- The API server with a Service that the Application does not own.
abbrev pub foreign_cluster : Client
foreign_cluster = let c = cluster_with web in record c { get = λ h k name. services_only k }

abbrev pub web_ref : ImageRef
web_ref = record { repository = "example/web"; tag = "1.2.0"; digest = "sha256:1" }

abbrev pub test_finder : ImageFinder (Unit {0})
test_finder spec f = (ok web_ref, f)

abbrev pub test_auth : AuthConfig
test_auth = record {
  auth_path_prefix = "/auth/";
  auth_service_name = record { namespace = "auth"; name = "proxy" };
  auth_service_port_name = "http";
  auth_middleware_name = record { namespace = "auth"; name = "check" };
}

abbrev pub test_routes : IngressRouteMutator
test_routes = record {
  default_traefik_middlewares = [];
  cname_target = "lb.example.com";
  auth_config = test_auth;
}

abbrev pub reconciler_with : Client → Reconciler (Unit {0})
reconciler_with client = record {
  image_finder = test_finder;
  ingress_routes = test_routes;
  client = client;
  library = test_library;
  range_order = λ h seen. seen;
  range_visits = λ h seen. Reordered-refl seen;
  supports_prometheus = true;
  supports_traefik = true;
}

abbrev pub web_name : NamespacedName
web_name = record { namespace = "prod"; name = "web" }

abbrev pub fresh : State (Unit {0})
fresh = record { history = []; finder = tt }
