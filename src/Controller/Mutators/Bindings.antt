-- ===== src/Controller/Mutators/Bindings.antt =====
-- roleBindingMutator.Mutate and clusterRoleBindingMutator.Mutate of
-- internal/controller/rolebinding.go and clusterrolebinding.go
use application_controller.Common.{[], ◌∷◌}
use application_controller.Errors.{Result, ok}
use application_controller.Kube.{BindingSpec, Kind, Object}
use application_controller.Api.{Application, ScopedRoleRef}
use application_controller.Controller.Names.{service_account_name}

-- The subjects and the role that both mutators set.
unfoldable pub binding : Application → ScopedRoleRef → BindingSpec
binding app role_ref = record {
  subjects =
      record {
        api_group = "";
        kind = "ServiceAccount";
        name = (service_account_name app).name;
        namespace = (service_account_name app).namespace;
      }
      ∷ [];
  role_ref = role_ref.role_ref;
}

unfoldable pub role_binding_mutate :
    Application → ScopedRoleRef → Object Kind.role_binding → Result (Object Kind.role_binding)
unfolding binding
role_binding_mutate app role_ref rb = ok (record rb { spec = binding app role_ref })

unfoldable pub cluster_role_binding_mutate :
    Application
    → ScopedRoleRef
    → Object Kind.cluster_role_binding
    → Result (Object Kind.cluster_role_binding)
unfolding binding
cluster_role_binding_mutate app role_ref crb = ok (record crb { spec = binding app role_ref })
