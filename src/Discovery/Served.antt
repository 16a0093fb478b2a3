-- ===== src/Discovery/Served.antt =====
-- What the discovery functions of internal/k8s answer.
use application_controller.Common.{
  String, Bool, true, false, not, Option, List, [], ◌∷◌, In, ◌==◌, string_eq, beq_refl, eq_of_beq,
  ◌≡◌, refl, sym, ◌∙◌, ap, subst, arith, ◌⊎◌, inl, inr, Bool-cases, if◌then◌else◌, if_true,
  if_false,
}
use application_controller.Errors.{Result, ok, ◌>>=◌}
use application_controller.Discovery.{
  ApiResourceList, KubernetesClient, has_kind, serves, list_resources,
  is_prometheus_operator_installed, is_traefik_installed,
}

-- One of the lists is of the group version and has the kind.
pub record IsServed (group_version kind : String) (lists : List ApiResourceList) : Type 0 where
  pub resources : ApiResourceList
  pub listed : In resources lists
  pub version : resources.group_version ≡ group_version
  pub present : In kind resources.kinds

has_kind-In : (kind : String) (ks : List String) → has_kind kind ks ≡ true → In kind ks
unfolding has_kind
has_kind-In kind [] h = ground arith
has_kind-In kind (k ∷ ks) h = elim (Bool-cases (k == kind)) [
  | inl same ↦ inl (sym (eq_of_beq k kind same))
  | inr other ↦
      inr (has_kind-In kind ks (sym (if_false (k == kind) true (has_kind kind ks) other) ∙ h))
]

In-has_kind : (kind : String) (ks : List String) → In kind ks → has_kind kind ks ≡ true
unfolding has_kind
In-has_kind kind [] present = elim present [ ]
In-has_kind kind (k ∷ ks) (inl same) =
    if_true (k == kind) true (has_kind kind ks)
      (subst (λ x. (x == kind) ≡ true) same (beq_refl kind))
In-has_kind kind (k ∷ ks) (inr rest) = ground (arith, In-has_kind kind ks rest)

split :
    (version present rest : Bool)
    → (if not version then rest else (if present then true else rest)) ≡ true
    → ((version ≡ true) × (present ≡ true)) ⊎ (rest ≡ true)
split true true rest h = inl (refl, refl)
split true false rest h = inr h
split false present rest h = inr h

hit :
    (version present rest : Bool)
    → version ≡ true
    → present ≡ true
    → (if not version then rest else (if present then true else rest)) ≡ true
hit version present rest v p = ground (arith, v, p)

module _ (group_version kind : String) where
  serves-IsServed :
      (lists : List ApiResourceList)
      → serves group_version kind lists ≡ true
      → IsServed group_version kind lists
  unfolding serves
  serves-IsServed [] h = ground arith
  serves-IsServed (g ∷ gs) h =
      elim (split (g.group_version == group_version) (has_kind kind g.kinds)
        (serves group_version kind gs) h) [
          | inl here ↦ record {
            resources = g;
            listed = inl refl;
            version = eq_of_beq g.group_version group_version here.0;
            present = has_kind-In kind g.kinds here.1;
          }
          | inr rest ↦
              let s = serves-IsServed gs rest in
              record {
                resources = s.resources;
                listed = inr s.listed;
                version = s.version;
                present = s.present;
              }
        ]

  IsServed-serves :
      (lists : List ApiResourceList) (g : ApiResourceList)
      → In g lists
      → (g.group_version == group_version) ≡ true
      → has_kind kind g.kinds ≡ true
      → serves group_version kind lists ≡ true
  unfolding serves
  IsServed-serves [] g listed version present = elim listed [ ]
  IsServed-serves (g' ∷ gs) g (inl same) version present =
      hit (g'.group_version == group_version) (has_kind kind g'.kinds)
        (serves group_version kind gs)
        (subst (λ (x : ApiResourceList). (x.group_version == group_version) ≡ true) same version)
        (subst (λ (x : ApiResourceList). has_kind kind x.kinds ≡ true) same present)
  IsServed-serves (g' ∷ gs) g (inr rest) version present =
      ground (arith, IsServed-serves gs g rest version present)

  IsServed-false :
      (lists : List ApiResourceList)
      → serves group_version kind lists ≡ false
      → ¬ IsServed group_version kind lists
  IsServed-false lists unserved s =
      let found =
        IsServed-serves lists s.resources s.listed
          (subst (λ x. (x == group_version) ≡ true) (sym s.version) (beq_refl group_version))
          (In-has_kind kind s.resources.kinds s.present) in
      ground (arith, found, unserved)

  -- `answer` says whether the lists have the kind.
  abbrev pub Decides : List ApiResourceList → Result Bool → Type 0
  Decides lists answer =
      (IsServed group_version kind lists × (answer ≡ ok true))
      ⊎ (¬ IsServed group_version kind lists × (answer ≡ ok false))

  serves-Decides :
      (lists : List ApiResourceList) → Decides lists (ok (serves group_version kind lists))
  serves-Decides lists = elim (Bool-cases (serves group_version kind lists)) [
    | inl found ↦ inl (serves-IsServed lists found, ap ok found)
    | inr unserved ↦ inr (IsServed-false lists unserved, ap ok unserved)
  ]

-- If the API lists can be read, IsPrometheusOperatorInstalled answers true if one of the lists is of
-- monitoring.coreos.com/v1 and has the kind PodMonitor, and false if none is.
pub is_prometheus_operator_installed-Decides :
    (k8s : KubernetesClient) (config : Option k8s.Config) (lists : List ApiResourceList)
    → list_resources k8s config ≡ ok lists
    → Decides "monitoring.coreos.com/v1" "PodMonitor" lists
        (is_prometheus_operator_installed k8s config)
unfolding is_prometheus_operator_installed
is_prometheus_operator_installed-Decides k8s config lists listed =
    subst
      (λ r.
        Decides "monitoring.coreos.com/v1" "PodMonitor" lists
          (r >>= λ ls. ok (serves "monitoring.coreos.com/v1" "PodMonitor" ls)))
      (sym listed) (serves-Decides "monitoring.coreos.com/v1" "PodMonitor" lists)

-- If the API lists can be read, IsTraefikInstalled answers true if one of the lists is of
-- traefik.io/v1alpha1 and has the kind IngressRoute, and false if none is.
pub is_traefik_installed-Decides :
    (k8s : KubernetesClient) (config : Option k8s.Config) (lists : List ApiResourceList)
    → list_resources k8s config ≡ ok lists
    → Decides "traefik.io/v1alpha1" "IngressRoute" lists (is_traefik_installed k8s config)
unfolding is_traefik_installed
is_traefik_installed-Decides k8s config lists listed =
    subst
      (λ r.
        Decides "traefik.io/v1alpha1" "IngressRoute" lists
          (r >>= λ ls. ok (serves "traefik.io/v1alpha1" "IngressRoute" ls)))
      (sym listed) (serves-Decides "traefik.io/v1alpha1" "IngressRoute" lists)
