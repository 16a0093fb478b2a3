-- ===== src/Controller/Ports/Lookup.antt =====
-- Which port the reconciled list has under a name.
use application_controller.Common.{
  String, Bool, true, false, ◌||◌, Option, none, some, is_some, List, [], ◌∷◌, ◌++◌, GoMap, lookup,
  insert, string_eq, ◌==◌, eq_iff, ◌≡◌, refl, arith, if◌then◌else◌, or_else, lookup-insert, ◌∙◌,
}
use application_controller.Kube.{ContainerPort, ServicePort}
use application_controller.Controller.Ports.{
  by_name, adopt_one, adopt_actual, append_new, reconcile_ports, adopt_container_port,
  reconcile_container_ports, adopt_service_port, reconcile_service_ports,
}

module _ {P : Type 0} (name_of : P → String) where
  -- The first port of that name, and the last one.
  abbrev pub find : String → List P → Option P
  find n [] = none
  find n (p ∷ ps) = if name_of p == n then some p else find n ps

  abbrev pub find_last : String → List P → Option P
  find_last n [] = none
  find_last n (p ∷ ps) = or_else (find_last n ps) (if name_of p == n then some p else none)

  find-append : (n : String) (xs ys : List P) → find n (xs ++ ys) ≡ or_else (find n xs) (find n ys)
  find-append n [] ys = refl
  find-append n (x ∷ xs) ys = ground (arith, find-append n xs ys)

  find_last-none : (n : String) (ps : List P) → find_last n ps ≡ none → find n ps ≡ none
  find_last-none n [] h = refl
  find_last-none n (p ∷ ps) h = ground (arith, find_last-none n ps)

  module _ (adopt : P → P → P) where
    pub lookup-by_name :
        (n : String) (ps : List P) (m : GoMap String P)
        → lookup n (by_name name_of adopt m ps) ≡ or_else (find_last n ps) (lookup n m)
    unfolding by_name
    lookup-by_name n [] m = refl
    lookup-by_name n (p ∷ ps) m =
        ground
          (arith, lookup-by_name n ps (insert (name_of p) p m), lookup-insert (name_of p) n p m)

    module _ (keeps_name : (got want : P) → name_of (adopt got want) ≡ name_of got) where
      -- What the existing ports give under a name.
      abbrev pub adopted : String → GoMap String P → List P → Option P
      adopted n desired actual = elim (lookup n desired) [
        | none ↦ none
        | some want ↦ elim (find n actual) [ none ↦ none | some got ↦ some (adopt got want) ]
      ]

      find-adopt_one :
          (n : String) (desired : GoMap String P) (got : P) (o : Option P) (actual : List P)
          (acc : List P × GoMap String Bool)
          → lookup (name_of got) desired ≡ o
          → or_else (find n (adopt_one name_of adopt got o acc).0) (adopted n desired actual)
            ≡ or_else (find n acc.0) (adopted n desired (got ∷ actual))
      unfolding adopt_one
      find-adopt_one n desired got none actual acc h = ground (arith, eq_iff (name_of got) n)
      find-adopt_one n desired got (some want) actual acc h = ground (
        arith,
        eq_iff (name_of got) n,
        find-append n acc.0 (adopt got want ∷ []),
        keeps_name got want,
      )

      find-adopt_actual :
          (n : String) (desired : GoMap String P) (actual : List P)
          (acc : List P × GoMap String Bool)
          → find n (adopt_actual name_of adopt desired actual acc).0
            ≡ or_else (find n acc.0) (adopted n desired actual)
      unfolding adopt_actual
      find-adopt_actual n desired [] acc = ground arith
      find-adopt_actual n desired (got ∷ actual) acc =
          find-adopt_actual n desired actual
            (adopt_one name_of adopt got (lookup (name_of got) desired) acc)
          ∙ find-adopt_one n desired got (lookup (name_of got) desired) actual acc refl

      -- Whether the name has been seen.
      abbrev pub saw : Option Bool → Bool
      saw (some true) = true
      saw _ = false

      seen-adopt_one :
          (n : String) (desired : GoMap String P) (got : P) (o : Option P) (actual : List P)
          (acc : List P × GoMap String Bool)
          → lookup (name_of got) desired ≡ o
          → (saw (lookup n (adopt_one name_of adopt got o acc).1)
              || is_some (adopted n desired actual))
            ≡ (saw (lookup n acc.1) || is_some (adopted n desired (got ∷ actual)))
      unfolding adopt_one
      seen-adopt_one n desired got none actual acc h = ground (arith, eq_iff (name_of got) n)
      seen-adopt_one n desired got (some want) actual acc h =
          ground (arith, eq_iff (name_of got) n, lookup-insert (name_of got) n true acc.1)

      pub seen-adopt_actual :
          (n : String) (desired : GoMap String P) (actual : List P)
          (acc : List P × GoMap String Bool)
          → saw (lookup n (adopt_actual name_of adopt desired actual acc).1)
            ≡ (saw (lookup n acc.1) || is_some (adopted n desired actual))
      unfolding adopt_actual
      seen-adopt_actual n desired [] acc = ground arith
      seen-adopt_actual n desired (got ∷ actual) acc =
          seen-adopt_actual n desired actual
            (adopt_one name_of adopt got (lookup (name_of got) desired) acc)
          ∙ seen-adopt_one n desired got (lookup (name_of got) desired) actual acc refl

      find-append_new :
          (n : String) (seen : GoMap String Bool) (desired result : List P)
          → find n (append_new name_of adopt seen desired result)
            ≡ or_else (find n result) (if saw (lookup n seen) then none else find n desired)
      unfolding append_new
      find-append_new n seen [] result = ground arith
      find-append_new n seen (want ∷ desired) result = ground (
        arith,
        eq_iff (name_of want) n,
        find-append_new n seen desired result,
        find-append_new n seen desired (result ++ want ∷ []),
        find-append n result (want ∷ []),
      )

      -- The port of the reconciled list under a name, first one taken: none, if no desired port has
      -- the name; else the existing port of that name with what it adopts from the last desired
      -- one; else, if no existing port has the name, the desired port.
      abbrev pub expected : String → List P → List P → Option P
      expected n actual desired = elim (find_last n desired) [
        | none ↦ none
        | some want ↦ elim (find n actual) [
          | none ↦ find n desired
          | some got ↦ some (adopt got want)
        ]
      ]

      pub find-reconcile_ports :
          (n : String) (actual desired : List P)
          → find n (reconcile_ports name_of adopt actual desired) ≡ expected n actual desired
      unfolding reconcile_ports lookup
      find-reconcile_ports n [] desired = ground (arith, find_last-none n desired)
      find-reconcile_ports n (got ∷ actual) desired = ground (
        arith,
        find_last-none n desired,
        lookup-by_name n desired [],
        find-adopt_actual n (by_name name_of adopt [] desired) (got ∷ actual) ([], []),
        seen-adopt_actual n (by_name name_of adopt [] desired) (got ∷ actual) ([], []),
        find-append_new n
            (adopt_actual name_of adopt (by_name name_of adopt [] desired) (got ∷ actual)
              ([], [])).1
            desired
            (adopt_actual name_of adopt (by_name name_of adopt [] desired) (got ∷ actual)
              ([], [])).0,
      )

-- Under every name, the reconciled container ports have: no port if no desired port has the name;
-- the existing port of that name, with the number and the protocol of the (last) desired one, if
-- both exist; and the desired port if there is no existing one.
pub find-reconcile_container_ports :
    (n : String) (actual desired : List ContainerPort)
    → find (λ p. p.name) n (reconcile_container_ports actual desired)
      ≡ (elim (find_last (λ (p : ContainerPort). p.name) n desired) [
        | none ↦ none
        | some want ↦ elim (find (λ (p : ContainerPort). p.name) n actual) [
          | none ↦ find (λ p. p.name) n desired
          | some got ↦
              some (record got { container_port = want.container_port; protocol = want.protocol })
        ]
      ])
unfolding reconcile_container_ports
find-reconcile_container_ports n actual desired =
    find-reconcile_ports (λ p. p.name) adopt_container_port (λ got want. refl) n actual desired

-- When an existing and a desired Service port have the same name, the reconciled list has a port
-- of that name with the target port and the protocol of the desired one, and with the port number
-- of the existing one: a change of the container port does not reach it.
pub find-reconcile_service_ports :
    (n : String) (actual desired : List ServicePort) (got want : ServicePort)
    → find (λ p. p.name) n actual ≡ some got
    → find_last (λ p. p.name) n desired ≡ some want
    → (r : ServicePort) × (find (λ p. p.name) n (reconcile_service_ports actual desired) ≡ some r)
      × (r.target_port ≡ want.target_port)
      × (r.protocol ≡ want.protocol)
      × (r.port ≡ got.port)
      × (r.node_port ≡ got.node_port)
unfolding reconcile_service_ports
find-reconcile_service_ports n actual desired got want existing wanted = (
  adopt_service_port got want,
  ground (
    arith,
    find-reconcile_ports (λ (p : ServicePort). p.name) adopt_service_port (λ got want. refl) n
        actual desired,
  ),
  refl,
  refl,
  refl,
  refl,
)
