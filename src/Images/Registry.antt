-- ===== src/Images/Registry.antt =====
-- internal/images/registryclient.go with the counter of internal/metrics/metrics.go, the conversions
-- of imageref.go, simpleapplicationlister.go, and CurrentNamespace of internal/k8s/namespace.go. The
-- library go-containerregistry is an interface.
pub mod Counting
use application_controller.Common.{String, List, [], ◌∷◌, ◌++◌, concat}
use application_controller.Errors.{Error, wrap_after, Result, ok, err}
use application_controller.Api.{Application}
use application_controller.Images.ImageRef.{ImageRef, to_string}

-- A Go function that returns, or that panics with an error.
pub data Attempt (A : Type 0) : Type 0 where
  returned : A → Attempt A
  panicked : Error → Attempt A

infixl 5 ◌>>=◌
abbrev pub ◌>>=◌ : {A B : Type 0} → Attempt A → (A → Attempt B) → Attempt B
returned a >>= f = f a
panicked e >>= f = panicked e

-- The packages name and remote, at the time of a call. `get` answers with the text of the
-- descriptor's digest.
pub record Remote : Type 1 where
  pub Reference : Type 0
  pub Repository : Type 0
  pub Option : Type 0
  pub parse_reference : String → Result Reference
  pub context : Reference → Repository
  pub registry_str : Repository → String
  pub repository_str : Repository → String
  pub with_context : Option
  pub list : Repository → List Option → Result (List String)
  pub get : Reference → List Option → Result String

-- The values of the labels of the counter image_registry_calls_total.
pub record Labels : Type 0 where
  pub registry : String
  pub repository : String
  pub method : String
  pub success : String

-- The increments of the counter, latest first.
abbrev pub Counter : Type 0
Counter = List Labels

-- (*simpleApplicationLister).ListApplications, of what client.List of all namespaces answers
unfoldable pub list_applications : Result (List Application) → Result (List Application)
list_applications (ok items) = ok items
list_applications (err e) = err (wrap_after e "failed to list Applications: ")

-- CurrentNamespace, of what os.ReadFile answers
unfoldable pub current_namespace : Result String → Result String
current_namespace (ok bytes) = ok bytes
current_namespace (err e) = err (wrap_after e "failed to read current namespace: ")

module _ (remote : Remote) where
  open remote use {
    Reference, Repository, Option, parse_reference, context, registry_str, repository_str,
    with_context, list, get,
  }

  pub record SimpleRegistryClient : Type 0 where
    pub extra_opts : List Option

  -- A call of remote.List or remote.Get.
  pub data Request : Type 0 where
    listed : Repository → List Option → Request
    got : Reference → List Option → Request

  -- What the lookups have done: the calls of the registry, and the counter; latest first.
  pub record Lookups : Type 0 where
    pub requests : List Request
    pub counter : Counter

  or_panic : Result Reference → Attempt Reference
  or_panic (ok ref) = returned ref
  or_panic (err e) = panicked e

  -- (*ImageRef).ToGoContainerRegistryReference
  unfoldable pub to_go_container_registry_reference : ImageRef → Attempt Reference
  unfolding or_panic to_string
  to_go_container_registry_reference ref = or_panic (parse_reference (to_string ref))

  -- (*ImageRef).ToGoContainerRegistryRepository
  unfoldable pub to_go_container_registry_repository : ImageRef → Attempt Repository
  unfolding or_panic to_string
  to_go_container_registry_repository ref = do
    parsed ← or_panic (parse_reference (to_string ref))
    returned (context parsed)

  -- (*simpleRegistryClient).opts
  abbrev pub opts : SimpleRegistryClient → List Option
  opts c = with_context ∷ [] ++ c.extra_opts

  success_label : {A : Type 0} → Result A → String
  success_label (ok _) = "true"
  success_label (err _) = "false"

  -- (*simpleRegistryClient).instrumentLookup
  unfoldable pub instrument_lookup :
      {A : Type 0} → ImageRef → String → Result A → Counter → Attempt Counter
  unfolding to_go_container_registry_reference success_label
  instrument_lookup ref method answer counter = do
    parsed ← to_go_container_registry_reference ref
    let repository : Repository = context parsed
    let labels : Labels = record {
      registry = registry_str repository;
      repository = repository_str repository;
      method = method;
      success = success_label answer;
    }
    returned (labels ∷ counter)

  explained : {A : Type 0} → String → Result A → Result A
  explained text (ok a) = ok a
  explained text (err e) = err (wrap_after e text)

  -- (*simpleRegistryClient).ListTags
  unfoldable pub list_tags :
      SimpleRegistryClient → ImageRef → Lookups → Attempt (Result (List String) × Lookups)
  unfolding instrument_lookup to_go_container_registry_repository explained
  list_tags c ref before = do
    repository ← to_go_container_registry_repository ref
    let answer : Result (List String) = list repository (opts c)
    let asked : List Request = listed repository (opts c) ∷ before.requests
    counted ← instrument_lookup ref "list_tags" answer before.counter
    let text : String = concat ("failed to fetch list of tags for " ∷ ref.repository ∷ ": " ∷ [])
    returned (explained text answer, record { requests = asked; counter = counted })

  -- (*simpleRegistryClient).GetDigest
  unfoldable pub get_digest :
      SimpleRegistryClient → ImageRef → Lookups → Attempt (Result String × Lookups)
  unfolding instrument_lookup to_go_container_registry_reference explained
  get_digest c ref before = do
    reference ← to_go_container_registry_reference ref
    let answer : Result String = get reference (opts c)
    let asked : List Request = got reference (opts c) ∷ before.requests
    counted ← instrument_lookup ref "get_digest" answer before.counter
    let text : String = concat ("failed to retrieve digest for " ∷ to_string ref ∷ ": " ∷ [])
    returned (explained text answer, record { requests = asked; counter = counted })
