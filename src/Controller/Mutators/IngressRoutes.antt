-- ===== src/Controller/Mutators/IngressRoutes.antt =====
-- ingressRouteMutator and AuthConfig of internal/controller/ingress_route.go
pub mod Rules
use Prim.Native.String as S
use Prim.Native.Char.{code}
use application_controller.Common.{
  String, ℕ, Bool, true, false, not, ◌&&◌, ◌||◌, Option, none, some, List, [], ◌∷◌, ◌++◌, GoMap,
  insert, string_eq, ◌==◌, nat_eq, concat, map, if◌then◌else◌,
}
use application_controller.Errors.{
  Error, sentinel, wrap_before, err_bad_host, err_no_ingress_route_port, err_invalid_auth_config,
  Result, ok, err, ◌>>=◌,
}
use application_controller.Kube.{
  NamespacedName, ContainerPort, TraefikService, Route, ObjectMeta, Kind, Object,
}
use application_controller.Api.{Application, Ingress, IngressAuth, TraefikMiddlewareRef}
use application_controller.Controller.Names.{service_name, external_dns_target_annotation}
use application_controller.Controller.Mutators.Hostname.{match_string, codes}

pub record AuthConfig : Type 0 where
  pub auth_path_prefix : String
  pub auth_service_name : NamespacedName
  pub auth_service_port_name : String
  pub auth_middleware_name : NamespacedName

pub record IngressRouteMutator : Type 0 where
  pub default_traefik_middlewares : List NamespacedName
  pub cname_target : String
  pub auth_config : AuthConfig

-- strings.HasPrefix(s, "/") and strings.HasSuffix(s, "/"); a slash is 47
starts_slash : List ℕ → Bool
starts_slash [] = false
starts_slash (c ∷ s) = c == 47

ends_slash : List ℕ → Bool
ends_slash [] = false
ends_slash (c ∷ []) = c == 47
ends_slash (c ∷ d ∷ s) = ends_slash (d ∷ s)

unfoldable pub has_prefix_slash : String → Bool
unfolding starts_slash codes
has_prefix_slash s = starts_slash (codes s)

unfoldable pub has_suffix_slash : String → Bool
unfolding ends_slash codes
has_suffix_slash s = ends_slash (codes s)

-- fmt.Errorf("%w: …", ErrInvalidAuthConfig)
invalid_auth : String → Error
invalid_auth text = wrap_before (sentinel err_invalid_auth_config) text

-- (AuthConfig).Validate
unfoldable pub validate : AuthConfig → Result (Unit {0})
unfolding invalid_auth has_prefix_slash has_suffix_slash
validate a =
    if not (has_prefix_slash a.auth_path_prefix && has_suffix_slash a.auth_path_prefix)
    then err (invalid_auth ": auth path prefix must begin and end with a `/`")
    else if a.auth_service_name.name == ""
    then err (invalid_auth ": auth service name is not specified")
    else if a.auth_service_port_name == ""
    then err (invalid_auth ": auth service port name is not specified")
    else if a.auth_middleware_name.name == ""
    then err (invalid_auth ": auth middleware name is not specified")
    else ok tt

-- The loop for a port named "http" or "web": the first one ends it.
unfoldable pub guess_port : List ContainerPort → String
guess_port [] = ""
guess_port (p ∷ ps) =
    let rest = guess_port ps in
    if p.name == "http" then "http" else if p.name == "web" then "web" else rest

-- (*ingressRouteMutator).middlewares copies each name into a MiddlewareRef with the same fields.
unfoldable pub middlewares : List NamespacedName → List NamespacedName
middlewares [] = []
middlewares (m ∷ ms) = record { namespace = m.namespace; name = m.name } ∷ middlewares ms

ref_names : List TraefikMiddlewareRef → List NamespacedName
ref_names [] = []
ref_names (m ∷ ms) = record { namespace = m.namespace; name = m.name } ∷ ref_names ms

-- The middlewares of the Application, or the default ones if it names none.
unfoldable pub chosen_middlewares :
    IngressRouteMutator → List TraefikMiddlewareRef → List NamespacedName
unfolding ref_names
chosen_middlewares f [] = f.default_traefik_middlewares
chosen_middlewares f (m ∷ ms) = ref_names (m ∷ ms)

abbrev pub host_rule : String → String
host_rule host = concat ("Host(`" ∷ host ∷ "`)" ∷ [])

abbrev pub prefix_rule : String → String → String
prefix_rule host prefix = concat ("Host(`" ∷ host ∷ "`) && PathPrefix(`" ∷ prefix ∷ "`)" ∷ [])

abbrev pub path_rule : String → String → String
path_rule host path = concat ("Host(`" ∷ host ∷ "`) && Path(`" ∷ path ∷ "`)" ∷ [])

-- The rule of an excluded path prefix: a path that ends in a slash is a prefix.
unfoldable pub exclude_rule : String → String → String
unfolding has_suffix_slash
exclude_rule host path =
    if has_suffix_slash path then prefix_rule host path else path_rule host path

abbrev pub rule_route : String → List NamespacedName → TraefikService → Route
rule_route rule ms service = record {
  kind = "Rule";
  matches = rule;
  middlewares = middlewares ms;
  services = service ∷ [];
}

abbrev pub app_service : Application → String → TraefikService
app_service app port_name = record {
  kind = "Service";
  namespace = (service_name app).namespace;
  name = (service_name app).name;
  port = port_name;
}

abbrev pub auth_service : AuthConfig → TraefikService
auth_service a = record {
  kind = "Service";
  namespace = a.auth_service_name.namespace;
  name = a.auth_service_name.name;
  port = a.auth_service_port_name;
}

-- The loop over ExcludePathPrefixes.
unfoldable pub exclude_routes :
    String → List NamespacedName → TraefikService → List String → List Route
unfolding exclude_rule
exclude_routes host ms service [] = []
exclude_routes host ms service (path ∷ paths) =
    rule_route (exclude_rule host path) ms service ∷ exclude_routes host ms service paths

-- The routes with the authentication proxy enabled.
unfoldable pub auth_routes :
    IngressRouteMutator → String → List NamespacedName → TraefikService → List String → List Route
unfolding exclude_routes middlewares
auth_routes f host ms service exclude =
    rule_route (prefix_rule host f.auth_config.auth_path_prefix) ms (auth_service f.auth_config)
    ∷ (exclude_routes host ms service exclude
        ++ rule_route (host_rule host) (ms ++ f.auth_config.auth_middleware_name ∷ []) service ∷ [])

pub routes_for :
    IngressRouteMutator
    → String
    → List NamespacedName
    → TraefikService
    → Option IngressAuth
    → Result (List Route)
routes_for f host ms service none = ok (rule_route (host_rule host) ms service ∷ [])
routes_for f host ms service (some auth) =
    if auth.enabled
    then (validate f.auth_config >>= λ _.
        ok (auth_routes f host ms service auth.exclude_path_prefixes))
    else ok (rule_route (host_rule host) ms service ∷ [])

-- ing.ObjectMeta.Annotations[…] = f.CNAMETarget, after a nil map has been replaced
unfoldable pub annotate : String → Option (GoMap String String) → Option (GoMap String String)
annotate target none = some (insert external_dns_target_annotation target [])
annotate target (some m) = some (insert external_dns_target_annotation target m)

-- The port of the Ingress section, or a guess.
unfoldable pub ingress_port : Application → Ingress → String
unfolding guess_port
ingress_port app ingress =
    if ingress.port_name == "" then guess_port app.spec.ports else ingress.port_name

-- Mutate; the caller has seen that the Application has an ingress section. An error leaves the
-- object to the caller as it is, annotated or not, and the caller then drops it.
unfoldable pub ingress_route_mutate :
    IngressRouteMutator
    → Application
    → Ingress
    → Object Kind.ingress_route
    → Result (Object Kind.ingress_route)
unfolding routes_for
ingress_route_mutate f app ingress ing =
    if not (match_string ingress.host)
    then err (sentinel err_bad_host)
    else if ingress_port app ingress == ""
    then err (sentinel err_no_ingress_route_port)
    else do
      routes ←
          routes_for f ingress.host (chosen_middlewares f ingress.traefik_middlewares)
            (app_service app (ingress_port app ingress)) ingress.auth
      let meta : ObjectMeta = ing.meta
      ok (record {
        meta = record meta { annotations = annotate f.cname_target meta.annotations };
        spec = routes;
      })
