-- ===== src/Controller/Mutators/Deployments/Drift.antt =====
-- What deploymentMutator.Mutate (internal/controller/deployment.go) leaves of the pod that it finds.
use application_controller.Common.{
  Bool, true, false, ◌||◌, Option, none, some, List, [], ◌∷◌, ◌≡◌, refl, ap, ◌∙◌,
}
use application_controller.Kube.{Container, PodSpec, PodSecurityContext}
use application_controller.Api.{Application, SecurityContext}
use application_controller.Images.ImageRef.{ImageRef}
use application_controller.Controller.Mutators.Pods.{zero_container, update_first, secure_pod}
use application_controller.Controller.Mutators.Deployments.{
  mutate_container, join_host_network, mutate_pod,
}

-- The security context of the Application, or else the one that was there.
abbrev pub pod_security :
    Option SecurityContext → Option PodSecurityContext → Option PodSecurityContext
pod_security none old = old
pod_security (some sc) old = some (record {
  supplemental_groups = sc.supplemental_groups;
  fs_group = sc.fs_group;
  sysctls = sc.sysctls;
  fs_group_change_policy = sc.fs_group_change_policy;
})

secure_pod-host_network :
    (sc : Option SecurityContext) (p : PodSpec)
    → ((secure_pod sc p).host_network ≡ p.host_network)
      × ((secure_pod sc p).containers ≡ p.containers)
      × ((secure_pod sc p).security_context ≡ pod_security sc p.security_context)
unfolding secure_pod
secure_pod-host_network none p = (refl, refl, refl)
secure_pod-host_network (some sc) p = (refl, refl, refl)

join_host_network-host_network :
    (b : Bool) (p : PodSpec)
    → ((join_host_network b p).host_network ≡ (b || p.host_network))
      × ((join_host_network b p).containers ≡ p.containers)
      × ((join_host_network b p).security_context ≡ p.security_context)
unfolding join_host_network
join_host_network-host_network true p = (refl, refl, refl)
join_host_network-host_network false p = (refl, refl, refl)

-- The containers behind the first one.
abbrev pub sidecars : List Container → List Container
sidecars [] = []
sidecars (c ∷ cs) = cs

first_container : List Container → Container
first_container [] = zero_container
first_container (c ∷ cs) = c

update_first-sidecars :
    (f : Container → Container) (cs : List Container)
    → update_first f cs ≡ f (first_container cs) ∷ sidecars cs
unfolding update_first first_container
update_first-sidecars f [] = refl
update_first-sidecars f (c ∷ cs) = refl

-- What the mutate function does not set anew stays as it was: the host network is on if the
-- Application asks for it or if it was on before, the pod's security context is the old one unless
-- the Application has one, and the containers behind the first one are untouched.
pub mutate_pod-sidecars :
    (app : Application) (ref : ImageRef) (p : PodSpec)
    → ((mutate_pod app ref p).host_network ≡ (app.spec.host_network || p.host_network))
      × ((mutate_pod app ref p).security_context
          ≡ pod_security app.spec.security_context p.security_context)
      × (sidecars (mutate_pod app ref p).containers ≡ sidecars p.containers)
unfolding mutate_pod
mutate_pod-sidecars app ref p =
    let (host, containers, security) = secure_pod-host_network app.spec.security_context _ in
    let (joined, same, old) = join_host_network-host_network app.spec.host_network _ in
    (
      host ∙ joined,
      security ∙ ap (pod_security app.spec.security_context) old,
      ap sidecars (containers ∙ update_first-sidecars (mutate_container app ref) _)
          ∙ ap sidecars same,
    )
