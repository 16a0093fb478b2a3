-- ===== src/Controller/Names.antt =====
-- internal/controller/names.go and the constants of application_controller.go. `to_lower` is
-- strings.ToLower.
use text.Mathlib.TextLemmas.{append_cancel_left, append-nil as text_append-nil, cons-ne-nil}
use application_controller.Common.{String, ◌≢◌, sym, ◌∙◌, ap, [], ◌∷◌, GoMap, concat}
use application_controller.Kube.{NamespacedName, RoleRef}
use application_controller.Api.{Application}

-- The constant Name of the controller.
abbrev pub controller_name : String
controller_name = "application-controller"

abbrev pub external_dns_hostname_annotation : String
external_dns_hostname_annotation = "external-dns.alpha.kubernetes.io/hostname"

abbrev pub external_dns_target_annotation : String
external_dns_target_annotation = "external-dns.alpha.kubernetes.io/target"

abbrev pub finalizer_name : String
finalizer_name = "application.yarotsky.me/finalizer"

-- (*simpleNamer).ApplicationName, and the like
abbrev pub application_name : Application → NamespacedName
application_name a = record { namespace = a.namespace; name = a.name }

abbrev pub deployment_name : Application → NamespacedName
deployment_name a = record { namespace = a.namespace; name = a.name }

abbrev pub service_account_name : Application → NamespacedName
service_account_name a = record { namespace = a.namespace; name = a.name }

abbrev pub service_name : Application → NamespacedName
service_name a = record { namespace = a.namespace; name = a.name }

unfoldable pub lb_service_name : Application → NamespacedName
lb_service_name a = record {
  namespace = a.namespace;
  name = concat (a.name ∷ "-loadbalancer" ∷ []);
}

abbrev pub pod_monitor_name : Application → NamespacedName
pod_monitor_name a = record { namespace = a.namespace; name = a.name }

abbrev pub ingress_route_name : Application → NamespacedName
ingress_route_name a = record { namespace = a.namespace; name = a.name }

module _ (to_lower : String → String) where
  unfoldable pub role_binding_name : Application → RoleRef → NamespacedName
  role_binding_name a role_ref = record {
    namespace = a.namespace;
    name = concat (a.name ∷ "-" ∷ to_lower role_ref.kind ∷ "-" ∷ role_ref.name ∷ []);
  }

  -- A cluster-scoped name: its namespace is empty.
  unfoldable pub cluster_role_binding_name : Application → RoleRef → NamespacedName
  cluster_role_binding_name a role_ref = record {
    namespace = "";
    name =
        concat
          (a.namespace ∷ "-" ∷ a.name ∷ "-" ∷ to_lower role_ref.kind ∷ "-" ∷ role_ref.name ∷ []);
  }

unfoldable pub cron_job_name : Application → String → NamespacedName
cron_job_name a job_name = record {
  namespace = a.namespace;
  name = concat (a.name ∷ "-" ∷ job_name ∷ []);
}

unfoldable pub selector_labels : Application → GoMap String String
selector_labels a =
    ("app.kubernetes.io/name", a.name)
    ∷ ("app.kubernetes.io/managed-by", controller_name)
    ∷ ("app.kubernetes.io/instance", "default")
    ∷ []

unfoldable pub cron_job_selector_labels : Application → String → GoMap String String
cron_job_selector_labels a job_name =
    ("app.kubernetes.io/name", job_name)
    ∷ ("app.kubernetes.io/managed-by", controller_name)
    ∷ ("app.kubernetes.io/part-of", a.name)
    ∷ ("app.kubernetes.io/instance", "default")
    ∷ []

-- The load balancer Service and the Service of an Application never have the same name.
lb_service_name-ne-service_name : (a : Application) → lb_service_name a ≢ service_name a
unfolding lb_service_name concat
lb_service_name-ne-service_name a e = cons-ne-nil _ _ (
    append_cancel_left a.name _ _
      (ap (λ (n : NamespacedName). n.name) e ∙ sym (text_append-nil a.name)))
