-- ===== src/Controller/Setup/Watches.antt =====
-- Which objects of an Application the controller watches, and how it indexes them.
use application_controller.Common.{
  ℕ, Bool, true, false, ◌||◌, ◌&&◌, List, [], ◌∷◌, ◌++◌, ◌==◌, nat_eq, ◌≡◌, refl, sym, ◌∙◌, ap,
  arith, beq_refl, append-nil, append_assoc,
}
use application_controller.Errors.{Result, ok, err}
use application_controller.Kube.{GroupKind, Kind, group_kind_eq}
use application_controller.Controller.State.{Library}
use application_controller.Controller.Setup.{
  Index, of_kind, Watch, for_application, owns, watches_annotated, image_updates, Manager,
  Registered, role_binding_index, cluster_role_binding_index, cron_job_index, after_index,
  index_all, setup_indexes, watches, completed, complete_all, setup_with_manager, ingress_route_tcp,
  ingress_route_udp,
}

abbrev kind_number : Kind → ℕ
kind_number Kind.service_account = 0
kind_number Kind.role_binding = 1
kind_number Kind.cluster_role_binding = 2
kind_number Kind.service = 3
kind_number Kind.pod_monitor = 4
kind_number Kind.ingress_route = 5
kind_number Kind.deployment = 6
kind_number Kind.cron_job = 7

abbrev pub same_kind : Kind → Kind → Bool
same_kind j k = kind_number j == kind_number k

module _ (application_kind : GroupKind) where
  -- A change of an object of the kind that an Application owns, by a controller reference or by the
  -- annotations for the Application's group and kind, enqueues the Application.
  abbrev pub covers : Watch → Kind → Bool
  covers (owns (of_kind j)) k = same_kind j k
  covers (owns ingress_route_tcp) k = false
  covers (owns ingress_route_udp) k = false
  covers (watches_annotated j g) k = same_kind j k && g == application_kind
  covers for_application k = false
  covers image_updates k = false

  abbrev pub is_watched : List Watch → Kind → Bool
  is_watched [] k = false
  is_watched (w ∷ ws) k = covers w k || is_watched ws k

-- All kinds but CronJob; PodMonitors and IngressRoutes if the cluster serves them.
abbrev pub expected : Bool → Bool → Kind → Bool
expected supports_prometheus supports_traefik Kind.cron_job = false
expected supports_prometheus supports_traefik Kind.pod_monitor = supports_prometheus
expected supports_prometheus supports_traefik Kind.ingress_route = supports_traefik
expected supports_prometheus supports_traefik _ = true

module _ (manager : Manager) (library : Library) where
  watches-expected :
      (prometheus traefik : Bool) (k : Kind)
      → is_watched manager.application_kind (watches manager library prometheus traefik) k
        ≡ expected prometheus traefik k
  unfolding watches
  watches-expected prometheus traefik k =
      let same = beq_refl manager.application_kind in ground (arith, same)

  after_index_inversion :
      (done after : List Index) (r : Result (Unit {0})) (rest : Result (List Index))
      → after_index manager library done r rest ≡ ok after
      → rest ≡ ok after
  unfolding after_index
  after_index_inversion done after (ok _) rest h = h
  after_index_inversion done after (err e) rest h = cc

  index_all_inversion :
      (done after more : List Index)
      → index_all manager library done more ≡ ok after
      → after ≡ done ++ more
  unfolding index_all
  index_all_inversion done after [] h =
      let same : done ≡ after = ground (arith, h) in sym same ∙ sym (append-nil done)
  index_all_inversion done after (index ∷ more) h =
      index_all_inversion (done ++ index ∷ []) after more (after_index_inversion done after _ _ h)
      ∙ append_assoc done (index ∷ []) more

  module _ (supports_prometheus supports_traefik : Bool) where
    -- The three indexes are registered, and the watches are those of the builder.
    IsSetUp : Registered → Type 0
    IsSetUp registered =
        (registered.indexes
          ≡ role_binding_index manager library
            ∷ cluster_role_binding_index manager library
            ∷ cron_job_index manager library
            ∷ [])
        × (registered.watches ≡ watches manager library supports_prometheus supports_traefik)

    completed-IsSetUp :
        (indexes : List Index) (r : Result (Unit {0})) (registered : Registered)
        → indexes
          ≡ role_binding_index manager library
            ∷ cluster_role_binding_index manager library
            ∷ cron_job_index manager library
            ∷ []
        → completed manager library supports_prometheus supports_traefik indexes r ≡ ok registered
        → IsSetUp registered
    unfolding completed IsSetUp
    completed-IsSetUp indexes (err e) registered all h = cc
    completed-IsSetUp indexes (ok _) registered all h =
        let same : record {
          indexes = indexes;
          watches = watches manager library supports_prometheus supports_traefik;
        }
            ≡ registered =
          ground (arith, h) in
        (
          sym (ap (λ (x : Registered). x.indexes) same) ∙ all,
          sym (ap (λ (x : Registered). x.watches) same),
        )

    complete_all-IsSetUp :
        (indexed : Result (List Index)) (registered : Registered)
        → ((indexes : List Index)
            → indexed ≡ ok indexes
            → indexes
              ≡ role_binding_index manager library
                ∷ cluster_role_binding_index manager library
                ∷ cron_job_index manager library
                ∷ [])
        → complete_all manager library supports_prometheus supports_traefik indexed ≡ ok registered
        → IsSetUp registered
    unfolding complete_all
    complete_all-IsSetUp (ok indexes) registered all h =
        completed-IsSetUp indexes _ registered (all indexes refl) h
    complete_all-IsSetUp (err e) registered all h = cc

    -- If SetupWithManager succeeds, then the owner indexes of RoleBindings, ClusterRoleBindings and
    -- CronJobs are registered, in this order, and the controller watches the owned objects of every
    -- kind but CronJob, those of PodMonitor and IngressRoute exactly if they are supported.
    pub setup_with_manager-expected :
        (registered : Registered)
        → setup_with_manager manager library supports_prometheus supports_traefik ≡ ok registered
        → (registered.indexes
            ≡ role_binding_index manager library
              ∷ cluster_role_binding_index manager library
              ∷ cron_job_index manager library
              ∷ [])
          × ((k : Kind)
              → is_watched manager.application_kind registered.watches k
                ≡ expected supports_prometheus supports_traefik k)
    unfolding setup_with_manager setup_indexes IsSetUp
    setup_with_manager-expected registered h =
        let (indexes, watching) =
          complete_all-IsSetUp _ registered (λ after e. index_all_inversion [] after _ e) h in
        (
          indexes,
          λ k.
              ap (λ ws. is_watched manager.application_kind ws k) watching
              ∙ watches-expected supports_prometheus supports_traefik k,
        )
