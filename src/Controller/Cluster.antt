-- ===== src/Controller/Cluster.antt =====
-- What a cluster holds when the calls of the reconciler of internal/controller have been made, and what
-- is asked of an API server for the statements on a second reconciliation.
pub mod Named
pub mod Services
pub mod Twice
use application_controller.Common.{
  Bool, true, false, Option, none, some, List, [], ◌∷◌, ◌==◌, ◌≡◌, refl, if◌then◌else◌,
}
use application_controller.Errors.{Error, foreign, Result, ok, err}
use application_controller.Kube.{NamespacedName, name_eq, Kind, Object}
use application_controller.Controller.State.{
  Call, get_application, get, list, upsert, delete, update, update_status, event, OperationResult,
  Client,
}

abbrev pub name_of : (k : Kind) → Object k → NamespacedName
name_of k o = record { namespace = o.meta.namespace; name = o.meta.name }

abbrev pub as_kind : (j k : Kind) → Object j → Option (Object k)
as_kind Kind.service_account Kind.service_account o = some o
as_kind Kind.role_binding Kind.role_binding o = some o
as_kind Kind.cluster_role_binding Kind.cluster_role_binding o = some o
as_kind Kind.service Kind.service o = some o
as_kind Kind.pod_monitor Kind.pod_monitor o = some o
as_kind Kind.ingress_route Kind.ingress_route o = some o
as_kind Kind.deployment Kind.deployment o = some o
as_kind Kind.cron_job Kind.cron_job o = some o
as_kind _ _ o = none

-- The objects of a cluster, by kind and name.
abbrev pub Objects : Type 0
Objects = (k : Kind) → NamespacedName → Option (Object k)

written : (k : Kind) → NamespacedName → Option (Object k) → Option (Object k) → Option (Object k)
written k name none before = before
written k name (some o) before = if name_of k o == name then some o else before

erased : (k : Kind) → NamespacedName → Option (Object k) → Option (Object k) → Option (Object k)
erased k name none before = before
erased k name (some o) before = if name_of k o == name then none else before

-- What the cluster holds after the calls, latest first.
unfoldable pub stored : Objects → List Call → Objects
unfolding written erased
stored initial [] k name = initial k name
stored initial (upsert j o ∷ calls) k name =
    written k name (as_kind j k o) (stored initial calls k name)
stored initial (delete j o ∷ calls) k name =
    erased k name (as_kind j k o) (stored initial calls k name)
stored initial (get_application n ∷ calls) k name = stored initial calls k name
stored initial (get j n ∷ calls) k name = stored initial calls k name
stored initial (list j ns owner ∷ calls) k name = stored initial calls k name
stored initial (update a ∷ calls) k name = stored initial calls k name
stored initial (update_status a ∷ calls) k name = stored initial calls k name
stored initial (event type reason ∷ calls) k name = stored initial calls k name

abbrev pub or_given : (k : Kind) → Object k → Option (Object k) → Object k
or_given k o none = o
or_given k o (some held) = held

-- What is asked of an API server that nobody else writes to: a read finds what the calls so far have
-- left, or fails with an error that says that there is nothing; CreateOrPatch hands over what is held;
-- and a write is accepted as it is. What the server reports of a write is arbitrary, and so is all else.
pub record Serves (client : Client) (initial : Objects) : Type 0 where
  pub finds :
      (calls : List Call) (k : Kind) (name : NamespacedName) (o : Object k)
      → stored initial calls k name ≡ some o
      → client.get calls k name ≡ ok o
  pub misses :
      (calls : List Call) (k : Kind) (name : NamespacedName)
      → stored initial calls k name ≡ none
      → (e : Error) × (client.get calls k name ≡ err e) × (client.is_not_found e ≡ true)
  pub hands :
      (calls : List Call) (k : Kind) (o : Object k)
      → client.before calls k o ≡ ok (or_given k o (stored initial calls k (name_of k o)))
  pub accepts :
      (calls : List Call) (k : Kind) (o : Object k)
      → (result : OperationResult) × (client.commit calls k o ≡ ok (result, o))
