-- ===== src/Controller/Mutators/IngressRoutes/Rules.antt =====
-- Which requests of an Application's IngressRoute pass the authentication middleware.
use application_controller.Common.{
  String, true, some, List, [], ◌∷◌, ◌++◌, string_eq, ◌≡◌, refl, ◌⊎◌, inl, inr, arith, All,
  All-append, In, In-append_right,
}
use application_controller.Errors.{ok}
use application_controller.Kube.{NamespacedName, Route, Kind, Object}
use application_controller.Api.{Application, Ingress, IngressAuth}
use application_controller.Controller.Mutators.Hostname.{match_string}
use application_controller.Controller.Mutators.IngressRoutes.{
  IngressRouteMutator, validate, middlewares, chosen_middlewares, host_rule, prefix_rule,
  exclude_rule, rule_route, app_service, auth_service, exclude_routes, auth_routes, ingress_port,
  ingress_route_mutate,
}

-- The rule of an excluded path.
abbrev pub IsExcluded : String → List String → String → Type 0
IsExcluded host [] rule = ⊥
IsExcluded host (path ∷ paths) rule = (rule ≡ exclude_rule host path) ⊎ IsExcluded host paths rule

module _ (f : IngressRouteMutator) (app : Application) (ingress : Ingress)
    (auth : IngressAuth) where
  -- A route is guarded by the middleware, goes to the authentication proxy, or is for an excluded
  -- path.
  abbrev pub IsGuarded : Route → Type 0
  IsGuarded r =
      In f.auth_config.auth_middleware_name r.middlewares
      ⊎ ((r.services ≡ auth_service f.auth_config ∷ [])
          × (r.matches ≡ prefix_rule ingress.host f.auth_config.auth_path_prefix))
      ⊎ IsExcluded ingress.host auth.exclude_path_prefixes r.matches

  In-middlewares : (m : NamespacedName) (ms : List NamespacedName) → In m ms → In m (middlewares ms)
  unfolding middlewares
  In-middlewares m (x ∷ ms) (inl here) = inl here
  In-middlewares m (x ∷ ms) (inr rest) = inr (In-middlewares m ms rest)
  In-middlewares m [] h = elim h [ ]

  exclude_routes-IsGuarded :
      (ms : List NamespacedName) (paths : List String)
      → ((rule : String)
          → IsExcluded ingress.host paths rule
          → IsExcluded ingress.host auth.exclude_path_prefixes rule)
      → All IsGuarded
          (exclude_routes ingress.host ms (app_service app (ingress_port app ingress)) paths)
  unfolding exclude_routes
  exclude_routes-IsGuarded ms [] within = tt
  exclude_routes-IsGuarded ms (path ∷ paths) within = (
    inr (inr (within (exclude_rule ingress.host path) (inl refl))),
    exclude_routes-IsGuarded ms paths (λ rule h. within rule (inr h)),
  )

  auth_routes-IsGuarded :
      (ms : List NamespacedName)
      → All IsGuarded (
          auth_routes f ingress.host ms
            (app_service app (ingress_port app ingress))
            auth.exclude_path_prefixes)
  unfolding auth_routes
  auth_routes-IsGuarded ms = (
    inr (inl (refl, refl)),
    All-append IsGuarded _ _ (exclude_routes-IsGuarded ms auth.exclude_path_prefixes (λ rule h. h))
        (
          inl (
              In-middlewares f.auth_config.auth_middleware_name _
                (In-append_right f.auth_config.auth_middleware_name ms _ (inl refl))),
          tt,
        ),
  )

  mutated_routes :
      (ing result : Object Kind.ingress_route)
      → ingress.auth ≡ some auth
      → auth.enabled ≡ true
      → ingress_route_mutate f app ingress ing ≡ ok result
      → (match_string ingress.host ≡ true)
        × (validate f.auth_config ≡ ok tt)
        × (result.spec
            ≡ auth_routes f ingress.host
                (chosen_middlewares f ingress.traefik_middlewares)
                (app_service app (ingress_port app ingress))
                auth.exclude_path_prefixes)
  unfolding ingress_route_mutate
  mutated_routes ing result has_auth enabled mutated = (ground arith, ground arith, ground arith)

  -- With authentication enabled in the ingress section, when the mutator succeeds: the host matches
  -- the host name expression and the AuthConfig is valid; every route that results carries the
  -- authentication middleware, or is the route of the authentication prefix to the authentication
  -- service, or is the route of an excluded path; and the last route is the one of the whole host,
  -- with the middleware.
  pub ingress_route_mutate-IsGuarded :
      (ing result : Object Kind.ingress_route)
      → ingress.auth ≡ some auth
      → auth.enabled ≡ true
      → ingress_route_mutate f app ingress ing ≡ ok result
      → (match_string ingress.host ≡ true)
        × (validate f.auth_config ≡ ok tt)
        × All IsGuarded result.spec
        × (rest : List Route) × (last : Route) × (result.spec ≡ rest ++ last ∷ [])
        × (last.matches ≡ host_rule ingress.host)
        × In f.auth_config.auth_middleware_name last.middlewares
  unfolding auth_routes
  ingress_route_mutate-IsGuarded ing result has_auth enabled mutated =
      let ms = chosen_middlewares f ingress.traefik_middlewares in
      let a = f.auth_config in
      let service = app_service app (ingress_port app ingress) in
      let (host_ok, auth_ok, routes) = mutated_routes ing result has_auth enabled mutated in
      (
        host_ok,
        auth_ok,
        rw routes (auth_routes-IsGuarded ms),
        rule_route (prefix_rule ingress.host a.auth_path_prefix) ms (auth_service a)
            ∷ exclude_routes ingress.host ms service auth.exclude_path_prefixes,
        rule_route (host_rule ingress.host) (ms ++ a.auth_middleware_name ∷ []) service,
        routes,
        refl,
        In-middlewares a.auth_middleware_name _
            (In-append_right a.auth_middleware_name ms (a.auth_middleware_name ∷ []) (inl refl)),
      )
