-- ===== src/Controller/Reconciler/Owned/Collisions.antt =====
-- The load balancer Service of one Application under the name of another one's Service.
use text.Mathlib.TextLemmas.{append_cancel_left, append-nil as text_append-nil, cons-ne-nil}
use application_controller.Common.{
  String, true, false, some, [], ◌∷◌, ◌==◌, string_eq, eq_of_beq, ◌≡◌, ◌≢◌, sym, ◌∙◌, ap, subst,
  arith, concat,
}
use application_controller.Errors.{ok, err}
use application_controller.Kube.{OwnerReference, Kind, Object}
use application_controller.Api.{Application}
use application_controller.Controller.Names.{service_name, lb_service_name}
use application_controller.Controller.Ownership.{controlled_by}
use application_controller.Controller.Ownership.Agreement.{
  IsLawful, owned-controlled_by, set_owner-reference,
}
use application_controller.Controller.Mutators.Services.{service_mutate}
use application_controller.Controller.State.{get, Library, State, pure, lift}
use application_controller.Controller.State.Steps.{then_call, bind-err}
use application_controller.Controller.Resource.{refusal, set_owner}
use application_controller.Controller.Resource.Branches.{reconcile_resource_refuses}
use application_controller.Controller.Reconciler.{Reconciler, service_events}
use application_controller.Controller.Reconciler.Zero.{zero_object}
use application_controller.Controller.Reconciler.Owned.{is_nonempty, reconcile_service}

controlled_by-other :
    (library : Library) (other : Application) (c : OwnerReference)
    → c.name ≢ other.name
    → controlled_by library other (some c) ≡ false
unfolding controlled_by
controlled_by-other library other c differs = grind (arith, eq_of_beq c.name other.name)

lb_service_name-service_name :
    (x y : Application)
    → x.namespace ≡ y.namespace
    → y.name ≡ concat (x.name ∷ "-loadbalancer" ∷ [])
    → lb_service_name x ≡ service_name y
unfolding lb_service_name
lb_service_name-service_name x y together named =
    ap (λ ns. record { namespace = ns; name = concat (x.name ∷ "-loadbalancer" ∷ []) }) together
    ∙ ap (λ n. record { namespace = y.namespace; name = n }) (sym named)

longer-ne : (n m : String) → m ≡ concat (n ∷ "-loadbalancer" ∷ []) → n ≢ m
unfolding concat
longer-ne n m named same =
    cons-ne-nil _ _ (append_cancel_left n _ _ (sym named ∙ sym same ∙ sym (text_append-nil n)))

module _ {F : Type 0} (r : Reconciler F) (x y : Application) where
  -- Suppose that one Application is named like another one of its namespace, with `-loadbalancer`
  -- after it. Then the load balancer Service of the other one has the name of its own Service; and
  -- once the API server holds that Service with the other one as the owner that reconcileResource
  -- sets, its reconcileService is refused, and the read is its only call. The library keeps its
  -- promises and knows Services as a namespaced kind, and the Applications have a namespace.
  pub reconcile_service_collides :
      (gvk : String) (o written : Object Kind.service) (s : State F)
      → IsLawful r.library x
      → r.library.is_object_namespaced Kind.service ≡ some true
      → r.library.gvk_for_object Kind.service ≡ ok gvk
      → (x.namespace == "") ≡ false
      → x.namespace ≡ y.namespace
      → y.name ≡ concat (x.name ∷ "-loadbalancer" ∷ [])
      → set_owner r.library x (lb_service_name x) Kind.service o ≡ ok written
      → r.client.get s.history Kind.service (lb_service_name x) ≡ ok written
      → (lb_service_name x ≡ service_name y)
        × (reconcile_service r y s ≡ (
          err (refusal gvk (r.library.name_string (service_name y))),
          then_call (get Kind.service (service_name y)) s,
        ))
  unfolding reconcile_service lb_service_name
  reconcile_service_collides gvk o written s lawful namespaced known placed together named owned
        held =
      let same = lb_service_name-service_name x y together named in
      let (c, is_controller, version, name) = lawful.controller o.meta written.meta (
        set_owner-reference r.library x lawful (lb_service_name x) Kind.service o written placed
          owned) in
      let foreign =
        owned-controlled_by r.library y Kind.service written.meta namespaced
        ∙ ap (controlled_by r.library y) is_controller
        ∙ controlled_by-other r.library y c (λ e. longer-ne x.name y.name named (sym name ∙ e)) in
      (
        same,
        bind-err _ (λ _. pure tt) s _ _
            (reconcile_resource_refuses r.library r.client y Kind.service (service_name y)
              (zero_object Kind.service) (λ svc. lift (service_mutate y svc))
              (is_nonempty y.spec.ports) service_events s gvk written known
              (subst (λ n. r.client.get s.history Kind.service n ≡ ok written) same held) foreign),
      )
